-- ===== src/Judge/Limiter/Windows.antt =====
-- Whom the limiter refuses, told from the requests alone.
use coder_er.Base.{
  ℕ, ◌≤◌, ◌≡◌, refl, String, true, List, [], ◌∷◌, ◌++◌, length, arith, string_equality,
  if◌then◌else◌, keep-append, All, ◌==◌, append_assoc, append-nil, sym, ◌∙◌, ap,
}
use coder_er.Judge.Limiter.{
  Options, Limiter, Request, ask, failure, success, create, sweep, is_limited, limited,
  record_failure, record_success, serve, serve_all, prune, recent,
}

-- The request is made at `now` or before.
abbrev pub IsPast : ℕ → Request → Type 0
IsPast now (ask ip t) = t ≤ now
IsPast now (failure ip t) = t ≤ now
IsPast now (success ip) = Unit

abbrev pub failure_times : List Request → List ℕ
failure_times [] = []
failure_times (ask ip t ∷ rs) = failure_times rs
failure_times (failure ip t ∷ rs) = t ∷ failure_times rs
failure_times (success ip ∷ rs) = failure_times rs

abbrev pub note_own : String → Request → List ℕ → List ℕ
note_own ip (ask j t) ts = ts
note_own ip (failure j t) ts = if j == ip then ts ++ t ∷ [] else ts
note_own ip (success j) ts = if j == ip then [] else ts

-- The failures of an address since its last success, behind those in `ts`.
abbrev pub own_failures : String → List Request → List ℕ → List ℕ
own_failures ip [] ts = ts
own_failures ip (r ∷ rs) ts = own_failures ip rs (note_own ip r ts)

abbrev pub recent_count : Options → ℕ → List ℕ → ℕ
recent_count o now ts = length (prune o ts now)

pub prune-prune :
    (o : Options) (ts : List ℕ) (t now : ℕ) → t ≤ now → prune o (prune o ts t) now ≡ prune o ts now
prune-prune o [] t now h = refl
prune-prune o (x ∷ ts) t now h = ground (arith, prune-prune o ts t now h)

pub prune-append :
    (o : Options) (xs ys : List ℕ) (now : ℕ)
    → prune o (xs ++ ys) now ≡ prune o xs now ++ prune o ys now
prune-append o xs ys now = keep-append (recent o now) xs ys

-- Nothing but time takes a failure off the global count.
prune-global_step :
    (o : Options) (now : ℕ) (r : Request) (l : Limiter)
    → IsPast now r
    → prune o (serve o r l).global_failures now
      ≡ prune o l.global_failures now ++ prune o (failure_times (r ∷ [])) now
unfolding is_limited record_failure record_success serve sweep
prune-global_step o now (ask ip t) l p =
    prune-prune o l.global_failures t now p ∙ sym (append-nil (prune o l.global_failures now))
prune-global_step o now (failure ip t) l p =
    prune-append o (prune o l.global_failures t) (t ∷ []) now
    ∙ rw (prune-prune o l.global_failures t now p) refl
prune-global_step o now (success ip) l p = sym (append-nil (prune o l.global_failures now))

failure_times-cons :
    (r : Request) (rs : List Request)
    → failure_times (r ∷ rs) ≡ failure_times (r ∷ []) ++ failure_times rs
failure_times-cons (ask ip t) rs = refl
failure_times-cons (failure ip t) rs = refl
failure_times-cons (success ip) rs = refl

prune-global :
    (o : Options) (now : ℕ) (rs : List Request) (l : Limiter)
    → All (IsPast now) rs
    → prune o (serve_all o rs l).global_failures now
      ≡ prune o l.global_failures now ++ prune o (failure_times rs) now
unfolding serve_all
prune-global o now [] l past = sym (append-nil (prune o l.global_failures now))
prune-global o now (r ∷ rs) l (p, past) = simp (
  prune-global o now rs (serve o r l) past,
  prune-global_step o now r l p,
  failure_times-cons r rs,
  prune-append,
  append_assoc,
)

pub recent_count-global :
    (o : Options) (now : ℕ) (rs : List Request)
    → All (IsPast now) rs
    → recent_count o now (serve_all o rs create).global_failures
      ≡ recent_count o now (failure_times rs)
recent_count-global o now rs past = ap length (prune-global o now rs create past)

-- Whoever asks, and whatever logins succeed between, as many recent failures as the global maximum
-- make the limiter refuse every address, if no request is dated after `now`.
pub is_limited-global :
    (o : Options) (ip : String) (now : ℕ) (rs : List Request)
    → All (IsPast now) rs
    → o.max_failures_global ≤ recent_count o now (failure_times rs)
    → (is_limited o ip now (serve_all o rs create)).0 ≡ true
unfolding is_limited limited sweep
is_limited-global o ip now rs past many = ground (arith, recent_count-global o now rs past)
