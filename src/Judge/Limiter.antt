-- ===== src/Judge/Limiter.antt =====
-- The limiter of failed judge logins (apps/web/lib/judge-login-limiter.ts). Times are milliseconds;
-- `now - timestamp` is compared as written, and a clock that goes back keeps the timestamp.
pub mod Bounds
pub mod Windows
pub mod Lockout
use coder_er.Base.{
  Option, ℕ, ◌+◌, String, Bool, true, none, some, List, [], ◌∷◌, ◌++◌, ltb, leb, length, keep,
  if◌then◌else◌, string_equality,
}
use coder_er.Base.Dict
use coder_er.Base.Dict.{Dict}

pub record Options : Type 0 where
  pub window_ms : ℕ
  pub max_failures_per_ip : ℕ
  pub max_failures_global : ℕ
  pub max_tracked_ips : ℕ

abbrev pub default_options : Options
default_options = record {
  window_ms = 600000;
  max_failures_per_ip = 5;
  max_failures_global = 30;
  max_tracked_ips = 1000;
}

pub record Limiter : Type 0 where
  pub per_ip : Dict String (List ℕ)
  pub global_failures : List ℕ

abbrev pub create : Limiter
create = record { per_ip = []; global_failures = [] }

-- `now - timestamp < windowMs`, also where the timestamp lies ahead.
abbrev pub recent : Options → ℕ → ℕ → Bool
recent o now timestamp = ltb now (timestamp + o.window_ms)

abbrev pub prune : Options → List ℕ → ℕ → List ℕ
prune o values now = keep (recent o now) values

keep_window : String → List ℕ → Dict String (List ℕ) → Dict String (List ℕ)
keep_window ip [] rest = rest
keep_window ip (t ∷ ts) rest = (ip, t ∷ ts) ∷ rest

sweep_windows : Options → ℕ → Dict String (List ℕ) → Dict String (List ℕ)
unfolding keep_window
sweep_windows o now [] = []
sweep_windows o now ((ip, failures) ∷ m) =
    keep_window ip (prune o failures now) (sweep_windows o now m)

sweep : Options → ℕ → Limiter → Limiter
unfolding sweep_windows
sweep o now l = record {
  per_ip = sweep_windows o now l.per_ip;
  global_failures = prune o l.global_failures now;
}

-- Evicts the oldest entry of a full table.
make_room : Options → Dict String (List ℕ) → Dict String (List ℕ)
make_room o [] = []
make_room o ((oldest, failures) ∷ m) =
    if leb o.max_tracked_ips (length ((oldest, failures) ∷ m))
    then Dict.delete ((oldest, failures) ∷ m) oldest
    else (oldest, failures) ∷ m

-- `track(ip).failures.push(now)`, for the window that the table holds for `ip`.
push_failure : Options → String → ℕ → Dict String (List ℕ) → Option (List ℕ) → Dict String (List ℕ)
unfolding make_room
push_failure o ip now m none = Dict.set (make_room o m) ip (now ∷ [])
push_failure o ip now m (some failures) = Dict.set m ip (failures ++ now ∷ [])

track_failure : Options → String → ℕ → Dict String (List ℕ) → Dict String (List ℕ)
unfolding push_failure
track_failure o ip now m = push_failure o ip now m (Dict.get m ip)

abbrev pub or_nil : Option (List ℕ) → List ℕ
or_nil none = []
or_nil (some failures) = failures

abbrev pub failures_of : Dict String (List ℕ) → String → List ℕ
failures_of m ip = or_nil (Dict.get m ip)

pub limited : Options → String → Limiter → Bool
limited o ip l =
    if leb o.max_failures_global (length l.global_failures)
    then true
    else leb o.max_failures_per_ip (length (failures_of l.per_ip ip))

unfoldable pub is_limited : Options → String → ℕ → Limiter → Bool × Limiter
unfolding sweep limited
is_limited o ip now l = let swept = sweep o now l in (limited o ip swept, swept)

unfoldable pub record_failure : Options → String → ℕ → Limiter → Bool × Limiter
unfolding sweep track_failure limited
record_failure o ip now l =
    let swept = sweep o now l in
    let l' : Limiter = record {
      per_ip = track_failure o ip now swept.per_ip;
      global_failures = swept.global_failures ++ now ∷ [];
    } in
    (limited o ip l', l')

unfoldable pub record_success : String → Limiter → Limiter
record_success ip l = record l { per_ip = Dict.delete l.per_ip ip }

-- What the endpoint may ask, and a sequence of requests.
pub data Request : Type 0 where
  ask : String → ℕ → Request
  failure : String → ℕ → Request
  success : String → Request

unfoldable pub serve : Options → Request → Limiter → Limiter
serve o (ask ip now) l = (is_limited o ip now l).1
serve o (failure ip now) l = (record_failure o ip now l).1
serve o (success ip) l = record_success ip l

unfoldable pub serve_all : Options → List Request → Limiter → Limiter
unfolding serve
serve_all o [] l = l
serve_all o (r ∷ rs) l = serve_all o rs (serve o r l)
