-- ===== src/Base/Machine.antt =====
-- A table of permitted status changes as a machine, and the milestones on its way.
use coder_er.Base.Tests.{nat_beq, leb}
use coder_er.Base.Results.{Result, ok, err, ◌>>=◌, >>=-eq-ok}
use coder_er.Base.Eq.{Equality, ◌==◌, contains}
use coder_er.Base.Finite.{Finite, holds_everywhere, holds_everywhere_sound}
use Prim.Native.Nat.{ℕ, ◌+◌, ◌≤◌, ◌<◌}
use mathlib.Core.Path.{◌≡◌, refl, sym, ap, subst}
use mathlib.Core.Logic.{◌⊎◌, inl, inr}
use mathlib.Core.Bool.{Bool, true, false, not, ◌&&◌, ◌||◌}
use mathlib.Core.List.{List, [], ◌∷◌, map}
use coder_er.Base.Lists.{All}
use native.Mathlib.Omega.{arith}
use native.Mathlib.Decide.{dec_lt}

-- What the three transition checks throw.
pub data InvalidTransition (A : Type 0) : Type 0 where
  invalid_transition : A → A → InvalidTransition A

abbrev pub is_ok : {E A : Type 0} → Result E A → Bool
is_ok (ok a) = true
is_ok (err e) = false

module _ {A E : Type 0} (check : A → A → Result E (Unit {0})) where
  -- Asks for each status of the path in turn, and stops at the first that is refused.
  unfoldable pub run : A → List A → Result E A
  run s [] = ok s
  run s (t ∷ path) = let rest = run t path in check s t >>= λ _. rest

module _ {A E : Type 0} (f : Finite A) ⦃e : Equality A⦄ (check : A → A → Result E (Unit {0}))
    (rank : A → ℕ) (milestone : ℕ → A) where
  abbrev pub climbs_one : A → A → Bool
  climbs_one s t =
      not (is_ok (check s t))
      || leb (rank t) (rank s)
      || nat_beq (rank t) (rank s + 1) && milestone (rank t) == t

  -- No permitted change raises the rank but to the next milestone.
  abbrev pub climbs_by_milestones : Bool
  climbs_by_milestones = holds_everywhere f (λ s. holds_everywhere f (climbs_one s))

  module _ (climbs : climbs_by_milestones ≡ true) where
    one_step :
        (s t : A)
        → is_ok (check s t) ≡ true
        → (rank t ≤ rank s) ⊎ ((rank t ≡ rank s + 1) × (milestone (rank t) ≡ t))
    one_step s t permitted =
        let row : holds_everywhere f (climbs_one s) ≡ true =
          holds_everywhere_sound f (λ s'. holds_everywhere f (climbs_one s')) s climbs in
        let here : climbs_one s t ≡ true = holds_everywhere_sound f (climbs_one s) t row in
        ground (arith, here, e.beq_iff (milestone (rank t)) t)

    -- A path from a lower to a higher rank asks for every milestone between.
    pub run-milestone :
        (s t : A) (path : List A) (k : ℕ)
        → run check s path ≡ ok t
        → rank s < k
        → k ≤ rank t
        → contains path (milestone k) ≡ true
    unfolding run
    run-milestone s t [] k h below above =
        let same : s ≡ t = cc in absurd (omega (arith, ap rank same))
    run-milestone s t (u ∷ path) k h below above =
        let (_, checked, rest) = >>=-eq-ok (check s u) (λ _. run check u path) h in
        let asked : is_ok (check s u) ≡ true = rw checked refl in
        let later : rank u < k → contains path (milestone k) ≡ true =
          λ under. run-milestone u t path k rest under above in
        elim (one_step s u asked) [
          | inl stays ↦ ground (arith, later (omega arith))
          | inr up ↦ elim (dec_lt (rank u) k) [
            | yes under ↦ ground (arith, later under)
            | no over ↦
                let here : rank u ≡ k = omega (arith, up.0) in
                ground (arith, e.beq_iff u (milestone k), up.1, ap milestone here)
          ]
        ]

    pub run-milestones :
        (s t : A) (path : List A) (ks : List ℕ)
        → run check s path ≡ ok t
        → All (λ k. (rank s < k) × (k ≤ rank t)) ks
        → All (λ gate. contains path gate ≡ true) (map milestone ks)
    run-milestones s t path [] h between = tt
    run-milestones s t path (k ∷ ks) h (here, later) =
        (run-milestone s t path k h here.0 here.1, run-milestones s t path ks h later)

module _ {A E : Type 0} (f : Finite A) ⦃e : Equality A⦄ (check : A → A → Result E (Unit {0}))
    (ends exits : A → Bool) where
  abbrev pub leaves_one : A → A → Bool
  leaves_one s t = not (ends s) || not (is_ok (check s t)) || t == s || exits t

  -- A status that `ends` marks is left, if at all, for one that `exits` marks.
  abbrev pub leaves_into_exits : Bool
  leaves_into_exits = holds_everywhere f (λ s. holds_everywhere f (leaves_one s))

  pub check-leaves :
      (s t : A)
      → leaves_into_exits ≡ true
      → ends s ≡ true
      → check s t ≡ ok tt
      → (t ≡ s) ⊎ (exits t ≡ true)
  check-leaves s t table ended h =
      let row : holds_everywhere f (leaves_one s) ≡ true =
        holds_everywhere_sound f (λ s'. holds_everywhere f (leaves_one s')) s table in
      let here : leaves_one s t ≡ true = holds_everywhere_sound f (leaves_one s) t row in
      let accepted : is_ok (check s t) ≡ true = rw h refl in ground (arith, here, e.beq_iff t s)

  pub run-settled :
      (s t : A) (path : List A)
      → leaves_into_exits ≡ true
      → ((u : A) → exits u ≡ false)
      → ends s ≡ true
      → run check s path ≡ ok t
      → t ≡ s
  unfolding run
  run-settled s t [] table shut ended h = cc
  run-settled s t (u ∷ path) table shut ended h =
      let (_, checked, rest) = >>=-eq-ok (check s u) (λ _. run check u path) h in
      elim (check-leaves s u table ended checked) [
        | inl same ↦
            subst (λ v. run check v path ≡ ok t → t ≡ s) (sym same)
              (run-settled s t path table shut ended) rest
        | inr out ↦ ground (arith, out, shut u)
      ]
