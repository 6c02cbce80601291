-- ===== src/Judge/Limiter/Bounds.antt =====
-- The limiter's table never holds more addresses than it may.
use coder_er.Base.{
  ℕ, ◌+◌, ◌≤◌, ◌<◌, ◌≡◌, refl, String, Option, none, some, List, [], ◌∷◌, ◌++◌, length, arith,
  string_equality,
}
use coder_er.Base.Dict
use coder_er.Base.Dict.{Dict}
use coder_er.Judge.Limiter.{
  Options, Limiter, Request, ask, failure, success, create, keep_window, sweep_windows, make_room,
  push_failure, track_failure, is_limited, record_failure, record_success, serve, serve_all, prune,
}

length-keep_window :
    (ip : String) (ts : List ℕ) (m : Dict String (List ℕ))
    → length (keep_window ip ts m) ≤ length m + 1
unfolding keep_window
length-keep_window ip [] m = omega arith
length-keep_window ip (t ∷ ts) m = omega arith

length-sweep_windows :
    (o : Options) (now : ℕ) (m : Dict String (List ℕ)) → length (sweep_windows o now m) ≤ length m
unfolding sweep_windows
length-sweep_windows o now [] = omega arith
length-sweep_windows o now ((ip, ts) ∷ m) = omega (
  arith,
  length-sweep_windows o now m,
  length-keep_window ip (prune o ts now) (sweep_windows o now m),
)

length-make_room :
    (o : Options) (m : Dict String (List ℕ))
    → 0 < o.max_tracked_ips
    → length m ≤ o.max_tracked_ips
    → length (make_room o m) < o.max_tracked_ips
unfolding make_room
length-make_room o [] pos fits = omega arith
length-make_room o ((ip, ts) ∷ m) pos fits = ground (arith, Dict.length-delete_head ip ts m)

length-push_failure :
    (o : Options) (ip : String) (now : ℕ) (m : Dict String (List ℕ)) (found : Option (List ℕ))
    → 0 < o.max_tracked_ips
    → length m ≤ o.max_tracked_ips
    → Dict.get m ip ≡ found
    → length (push_failure o ip now m found) ≤ o.max_tracked_ips
unfolding push_failure
length-push_failure o ip now m none pos fits e =
    omega (arith, length-make_room o m pos fits, Dict.length-set-le (make_room o m) ip (now ∷ []))
length-push_failure o ip now m (some ts) pos fits e =
    ground (arith, Dict.length-set m ip (ts ++ now ∷ []), Dict.has-get m ip)

serve-Fits :
    (o : Options) (r : Request) (l : Limiter)
    → 0 < o.max_tracked_ips
    → length l.per_ip ≤ o.max_tracked_ips
    → length (serve o r l).per_ip ≤ o.max_tracked_ips
unfolding serve is_limited record_failure record_success
serve-Fits o (ask ip now) l pos fits = omega (arith, length-sweep_windows o now l.per_ip)
serve-Fits o (failure ip now) l pos fits =
    let swept = sweep_windows o now l.per_ip in
    unfold track_failure in
    length-push_failure o ip now swept (Dict.get swept ip) pos
      (omega (arith, length-sweep_windows o now l.per_ip)) refl
serve-Fits o (success ip) l pos fits = omega (arith, Dict.length-delete l.per_ip ip)

serve_all-Fits :
    (o : Options) (rs : List Request) (l : Limiter)
    → 0 < o.max_tracked_ips
    → length l.per_ip ≤ o.max_tracked_ips
    → length (serve_all o rs l).per_ip ≤ o.max_tracked_ips
unfolding serve_all
serve_all-Fits o [] l pos fits = fits
serve_all-Fits o (r ∷ rs) l pos fits =
    serve_all-Fits o rs (serve o r l) pos (serve-Fits o r l pos fits)

-- However many addresses send requests, a new limiter that may track at least one address never
-- tracks more than its maximum.
pub serve_all-tracked :
    (o : Options) (rs : List Request)
    → 0 < o.max_tracked_ips
    → length (serve_all o rs create).per_ip ≤ o.max_tracked_ips
serve_all-tracked o rs pos = serve_all-Fits o rs create pos (omega arith)
