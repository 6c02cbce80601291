-- ===== src/Leases/Histories.antt =====
-- A store whose operations follow the lease protocol, and what that gives when many workers try
-- operations in any order: the client's view of the lease.
use coder_er.Base.{
  if◌then◌else◌, ltb, ℕ, ◌+◌, ◌≤◌, ◌≡◌, refl, true, false, String, Option, none, some, List, [],
  ◌∷◌, arith, string_equality, All, Option-cases, inl, inr, ap, ◌∙◌,
}
use coder_er.Leases.{
  free, Lease, held, LeaseAction, claim, renew, write, give_up, clear, expire, leave, lease_step,
  is_other, frees, lasts,
}

-- An operation that a store accepts is a step of the protocol on its lease. Every claim and renewal
-- is for at least `minimum` seconds.
pub record LeasedStore (State Command : Type 0) (minimum : ℕ) : Type 0 where
  pub step : Command → ℕ → State → Option State
  pub lease : State → Option Lease
  pub action : Command → LeaseAction
  pub long_enough : (c : Command) → lasts minimum (action c) ≡ true
  pub refines :
      (c : Command) (now : ℕ) (s s' : State) (l : Lease)
      → lease s ≡ some l
      → step c now s ≡ some s'
      → (l' : Lease) × ((lease_step (action c) now l ≡ some l') × (lease s' ≡ some l'))

live_past :
    (now expires : ℕ) (l : Lease)
    → now ≤ expires
    → (if ltb expires now then some free else none) ≡ some l
    → ◌≡◌ {A = Option Lease} none (some l)
live_past now expires l live h = ground (arith, live, h)

-- A step that is accepted while `a` holds the lease is not another's, and `a` still holds it.
held_step :
    (minimum bound now expires : ℕ) (a : String) (act : LeaseAction) (l : Lease)
    → lasts minimum act ≡ true
    → frees act ≡ false
    → now ≤ bound
    → bound ≤ now + minimum
    → bound ≤ expires
    → lease_step act now (held a expires) ≡ some l
    → (is_other a act ≡ false) × ((e : ℕ) × ((l ≡ held a e) × (bound ≤ e)))
unfolding lease_step
held_step minimum bound now expires a (claim w n) l long keeps before soon within h = (
  ground (arith, h, string_equality.beq_iff a w, string_equality.beq_iff w a),
  (
    now + n,
    (
      ground (arith, h, string_equality.beq_iff a w, string_equality.beq_iff w a),
      ground (arith, long),
    ),
  ),
)
held_step minimum bound now expires a (renew w n) l long keeps before soon within h = (
  ground (arith, h, string_equality.beq_iff a w, string_equality.beq_iff w a),
  (
    now + n,
    (
      ground (arith, h, string_equality.beq_iff a w, string_equality.beq_iff w a),
      ground (arith, long),
    ),
  ),
)
held_step minimum bound now expires a (write w) l long keeps before soon within h = (
  ground (arith, h, string_equality.beq_iff a w, string_equality.beq_iff w a),
  (expires, (ground (arith, h), within)),
)
held_step minimum bound now expires a (give_up w) l long keeps before soon within h = cc
held_step minimum bound now expires a clear l long keeps before soon within h = cc
held_step minimum bound now expires a expire l long keeps before soon within h =
    cc (live_past now expires l (omega (arith, before, within)) h)
held_step minimum bound now expires a leave l long keeps before soon within h =
    (refl, (expires, (ground (arith, h), within)))

module _ {State Command : Type 0} {minimum : ℕ} (store : LeasedStore State Command minimum) where
  -- The state that an attempt leaves, accepted or refused.
  abbrev pub attempt : Command → ℕ → State → State
  attempt c now s = elim (store.step c now s) [ none ↦ s | some s' ↦ s' ]

  -- Of the commands that are tried in this order, each that is another worker's is refused.
  abbrev pub AllowsOnly : String → List (ℕ × Command) → State → Type 0
  AllowsOnly a [] s = Unit
  AllowsOnly a ((now, c) ∷ later) s =
      (is_other a (store.action c) ≡ true → store.step c now s ≡ none)
      × AllowsOnly a later (attempt c now s)

  -- A command that neither gives the lease up nor clears it, and is tried before `bound`, but not
  -- more than `minimum` seconds before it.
  abbrev pub IsBetween : ℕ → ℕ × Command → Type 0
  IsBetween bound (now, c) =
      (frees (store.action c) ≡ false) × (now ≤ bound) × (bound ≤ now + minimum)

  pub attempt-AllowsOnly :
      (a : String) (bound expires : ℕ) (history : List (ℕ × Command)) (s : State)
      → store.lease s ≡ some (held a expires)
      → bound ≤ expires
      → All (IsBetween bound) history
      → AllowsOnly a history s
  attempt-AllowsOnly a bound expires [] s l within between = tt
  attempt-AllowsOnly a bound expires ((now, c) ∷ later) s l within ((keeps, before, soon), rest) =
      elim (Option-cases (store.step c now s)) [
        | inl refused ↦ (
          λ other. refused,
          rw (refused, attempt) (attempt-AllowsOnly a bound expires later s l within rest),
        )
        | inr (s', done) ↦
            let (l', (stepped, l'_of)) = store.refines c now s s' (held a expires) l done in
            let (own, (e, (same, still))) =
              held_step minimum bound now expires a (store.action c) l' (store.long_enough c) keeps
                before soon within stepped in
            (
              λ other. absurd (cc),
              rw (done, attempt)
                  (attempt-AllowsOnly a bound e later s' (l'_of ∙ ap some same) still rest),
            )
      ]
