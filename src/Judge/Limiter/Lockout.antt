-- ===== src/Judge/Limiter/Lockout.antt =====
-- The limiter refuses nobody without cause: its record of an address holds no more recent failures
-- than the address made since its last success.
use coder_er.Base.{
  ◌⊎◌, inl, ℕ, ◌≤◌, ◌≡◌, refl, String, true, false, Option, none, some, List, [], ◌∷◌, ◌++◌, length,
  arith, string_equality, if◌then◌else◌, length-append, All, ◌==◌, ap, ◌∙◌,
}
use coder_er.Base.Dict
use coder_er.Base.Dict.{Dict}
use coder_er.Judge.Limiter.{
  Options, Limiter, Request, ask, failure, success, create, keep_window, sweep_windows, sweep,
  make_room, push_failure, is_limited, limited, record_failure, record_success, serve, serve_all,
  prune, failures_of,
}
use coder_er.Judge.Limiter.Windows.{
  IsPast, failure_times, note_own, own_failures, recent_count, prune-prune, prune-append,
  recent_count-global,
}

module _ (o : Options) where
  failures_of-keep_window :
      (j ip : String) (ws : List ℕ) (rest : Dict String (List ℕ))
      → failures_of rest j ≡ []
      → failures_of (keep_window j ws rest) ip ≡ (if j == ip then ws else failures_of rest ip)
  unfolding keep_window Dict.get
  failures_of-keep_window j ip [] rest h = ground (arith, string_equality.beq_iff j ip)
  failures_of-keep_window j ip (w ∷ ws) rest h = ground arith

  failures_of-absent :
      (m : Dict String (List ℕ)) (ip : String) → Dict.has m ip ≡ false → failures_of m ip ≡ []
  failures_of-absent m ip h = ground (arith, Dict.has-get m ip)

  failures_of-sweep_windows :
      (t : ℕ) (m : Dict String (List ℕ)) (ip : String)
      → Dict.Distinct m
      → failures_of (sweep_windows o t m) ip ≡ prune o (failures_of m ip) t
  unfolding sweep_windows Dict.get
  failures_of-sweep_windows t [] ip d = refl
  failures_of-sweep_windows t ((j, ts) ∷ m) ip (fresh, d) =
      let gone : failures_of (sweep_windows o t m) j ≡ [] =
        failures_of-sweep_windows t m j d
        ∙ ap (λ xs. prune o xs t) (failures_of-absent m j fresh) in
      ground (
        arith,
        failures_of-keep_window j ip (prune o ts t) (sweep_windows o t m) gone,
        failures_of-sweep_windows t m ip d,
      )

  has-keep_window :
      (i j : String) (ws : List ℕ) (rest : Dict String (List ℕ))
      → (i == j) ≡ false
      → Dict.has rest j ≡ false
      → Dict.has (keep_window i ws rest) j ≡ false
  unfolding keep_window Dict.has
  has-keep_window i j [] rest other h = h
  has-keep_window i j (w ∷ ws) rest other h = ground arith

  has-sweep_windows :
      (t : ℕ) (m : Dict String (List ℕ)) (j : String)
      → Dict.has m j ≡ false
      → Dict.has (sweep_windows o t m) j ≡ false
  unfolding sweep_windows Dict.has
  has-sweep_windows t [] j h = refl
  has-sweep_windows t ((i, ts) ∷ m) j h =
      has-keep_window i j (prune o ts t) (sweep_windows o t m) (ground arith)
        (has-sweep_windows t m j (ground arith))

  keep_window-Distinct :
      (i : String) (ws : List ℕ) (rest : Dict String (List ℕ))
      → Dict.has rest i ≡ false
      → Dict.Distinct rest
      → Dict.Distinct (keep_window i ws rest)
  unfolding keep_window
  keep_window-Distinct i [] rest fresh d = d
  keep_window-Distinct i (w ∷ ws) rest fresh d = (fresh, d)

  sweep_windows-Distinct :
      (t : ℕ) (m : Dict String (List ℕ)) → Dict.Distinct m → Dict.Distinct (sweep_windows o t m)
  unfolding sweep_windows
  sweep_windows-Distinct t [] d = tt
  sweep_windows-Distinct t ((i, ts) ∷ m) (fresh, d) =
      keep_window-Distinct i (prune o ts t) (sweep_windows o t m) (has-sweep_windows t m i fresh)
        (sweep_windows-Distinct t m d)

  make_room-Distinct : (m : Dict String (List ℕ)) → Dict.Distinct m → Dict.Distinct (make_room o m)
  unfolding make_room
  make_room-Distinct [] d = tt
  make_room-Distinct ((j, ts) ∷ m) d = ground (arith, Dict.delete-Distinct ((j, ts) ∷ m) j d)

  failures_of-make_room :
      (m : Dict String (List ℕ)) (ip : String)
      → (failures_of (make_room o m) ip ≡ []) ⊎ (failures_of (make_room o m) ip ≡ failures_of m ip)
  unfolding make_room Dict.get
  failures_of-make_room [] ip = inl refl
  failures_of-make_room ((j, ts) ∷ m) ip = ground (arith, Dict.get-delete ((j, ts) ∷ m) j ip)

  push_failure-Distinct :
      (j : String) (t : ℕ) (m : Dict String (List ℕ)) (found : Option (List ℕ))
      → Dict.Distinct m
      → Dict.Distinct (push_failure o j t m found)
  unfolding push_failure
  push_failure-Distinct j t m none d =
      Dict.set-Distinct (make_room o m) j (t ∷ []) (make_room-Distinct m d)
  push_failure-Distinct j t m (some ts) d = Dict.set-Distinct m j (ts ++ t ∷ []) d

  serve-Distinct :
      (r : Request) (l : Limiter) → Dict.Distinct l.per_ip → Dict.Distinct (serve o r l).per_ip
  unfolding serve is_limited record_failure record_success
  serve-Distinct (ask j t) l d = sweep_windows-Distinct t l.per_ip d
  serve-Distinct (failure j t) l d =
      let swept = sweep_windows o t l.per_ip in
      push_failure-Distinct j t swept (Dict.get swept j) (sweep_windows-Distinct t l.per_ip d)
  serve-Distinct (success j) l d = Dict.delete-Distinct l.per_ip j d

  -- A failure adds to the record of its own address, and may evict that of another.
  failures_of-push_failure :
      (j ip : String) (t now : ℕ) (m : Dict String (List ℕ)) (found : Option (List ℕ))
      → Dict.get m j ≡ found
      → recent_count o now (failures_of (push_failure o j t m found) ip)
        ≤ recent_count o now (note_own ip (failure j t) (failures_of m ip))
  unfolding push_failure
  failures_of-push_failure j ip t now m none e = ground (
    arith,
    Dict.get-set (make_room o m) j ip (t ∷ []),
    failures_of-make_room m ip,
    string_equality.beq_iff j ip,
  )
  failures_of-push_failure j ip t now m (some ts) e =
      ground (arith, Dict.get-set m j ip (ts ++ t ∷ []), string_equality.beq_iff j ip)

  note_own_mono :
      (ip : String) (r : Request) (now : ℕ) (xs ys : List ℕ)
      → recent_count o now xs ≤ recent_count o now ys
      → recent_count o now (note_own ip r xs) ≤ recent_count o now (note_own ip r ys)
  note_own_mono ip (ask j t) now xs ys h = h
  note_own_mono ip (failure j t) now xs ys h = ground (
    arith,
    prune-append o xs (t ∷ []) now,
    prune-append o ys (t ∷ []) now,
    length-append (prune o xs now) (prune o (t ∷ []) now),
    length-append (prune o ys now) (prune o (t ∷ []) now),
  )
  note_own_mono ip (success j) now xs ys h = ground arith

  failures_of-serve :
      (ip : String) (r : Request) (now : ℕ) (l : Limiter)
      → IsPast now r
      → Dict.Distinct l.per_ip
      → recent_count o now (failures_of (serve o r l).per_ip ip)
        ≤ recent_count o now (note_own ip r (failures_of l.per_ip ip))
  unfolding serve is_limited record_failure record_success
  failures_of-serve ip (ask j t) now l past d = omega (
    arith,
    ap (recent_count o now) (failures_of-sweep_windows t l.per_ip ip d),
    ap length (prune-prune o (failures_of l.per_ip ip) t now past),
  )
  failures_of-serve ip (failure j t) now l past d =
      let swept = sweep_windows o t l.per_ip in
      omega (
        arith,
        failures_of-push_failure j ip t now swept (Dict.get swept j) refl,
        note_own_mono ip (failure j t) now (failures_of swept ip) (failures_of l.per_ip ip) (
            omega (
              arith,
              ap (recent_count o now) (failures_of-sweep_windows t l.per_ip ip d),
              ap length (prune-prune o (failures_of l.per_ip ip) t now past),
            )),
      )
  failures_of-serve ip (success j) now l past d = ground (arith, Dict.get-delete l.per_ip j ip)

  recent_count-own :
      (ip : String) (now : ℕ) (rs : List Request) (l : Limiter) (ts : List ℕ)
      → All (IsPast now) rs
      → Dict.Distinct l.per_ip
      → recent_count o now (failures_of l.per_ip ip) ≤ recent_count o now ts
      → recent_count o now (failures_of (serve_all o rs l).per_ip ip)
        ≤ recent_count o now (own_failures ip rs ts)
  unfolding serve_all
  recent_count-own ip now [] l ts past d h = h
  recent_count-own ip now (r ∷ rs) l ts (p, past) d h =
      recent_count-own ip now rs (serve o r l) (note_own ip r ts) past (serve-Distinct r l d) (
        omega (
          arith,
          failures_of-serve ip r now l p d,
          note_own_mono ip r now (failures_of l.per_ip ip) ts h,
        ))

  serve_all-Distinct :
      (rs : List Request) (l : Limiter)
      → Dict.Distinct l.per_ip
      → Dict.Distinct (serve_all o rs l).per_ip
  unfolding serve_all
  serve_all-Distinct [] l d = d
  serve_all-Distinct (r ∷ rs) l d = serve_all-Distinct rs (serve o r l) (serve-Distinct r l d)

  -- If no request is dated after `now`, an address is refused only where the recent failures of all
  -- addresses reach the global maximum, or its own since its last success reach the maximum for one
  -- address.
  pub is_limited-cause :
      (ip : String) (now : ℕ) (rs : List Request)
      → All (IsPast now) rs
      → (is_limited o ip now (serve_all o rs create)).0 ≡ true
      → (o.max_failures_global ≤ recent_count o now (failure_times rs))
        ⊎ (o.max_failures_per_ip ≤ recent_count o now (own_failures ip rs []))
  unfolding is_limited limited sweep Dict.get
  is_limited-cause ip now rs past h =
      let after = serve_all o rs create in
      ground (
        arith,
        recent_count-global o now rs past,
        failures_of-sweep_windows now after.per_ip ip (serve_all-Distinct rs create tt),
        recent_count-own ip now rs create [] past tt (omega arith),
      )
