-- ===== src/Approvals/Counting.antt =====
-- What the count of approvers counts: different actors, each with a row.
use coder_er.Base.{
  ℕ, ◌≡◌, refl, Bool, false, ◌&&◌, ◌||◌, String, List, [], ◌∷◌, contains, ◌==◌, all, true,
  nat_equality, string_equality, Equality, arith,
}
use coder_er.Approvals.{record_approval, Approval, approvers}

-- No name stands twice.
abbrev pub AllDifferent : List String → Type 0
AllDifferent [] = Unit
AllDifferent (x ∷ xs) = (contains xs x ≡ false) × AllDifferent xs

module _ {D : Type 0} ⦃e : Equality D⦄ (decision : D) (round : ℕ) where
  pub approvers-AllDifferent :
      (rows : List (Approval D)) → AllDifferent (approvers decision round rows)
  unfolding approvers
  approvers-AllDifferent [] = tt
  approvers-AllDifferent (a ∷ rows) = ground (arith, approvers-AllDifferent rows)

  -- Whether the table has such a row of an actor.
  abbrev pub has_row : String → List (Approval D) → Bool
  has_row actor [] = false
  has_row actor (a ∷ rows) =
      a.round == round && a.decision == decision && a.actor_id == actor || has_row actor rows

  pub contains-approvers :
      (actor : String) (rows : List (Approval D))
      → contains (approvers decision round rows) actor ≡ has_row actor rows
  unfolding approvers
  contains-approvers actor [] = refl
  contains-approvers actor (a ∷ rows) =
      ground (arith, contains-approvers actor rows, string_equality.beq_iff a.actor_id actor)

  -- A property of the approvers is kept by a row whose actor has it, if it is an approval.
  pub approvers-record_approval :
      (q : String → Bool) (a : Approval D) (rows : List (Approval D))
      → all q (approvers decision round rows) ≡ true
      → ((a.decision == decision) ≡ true → q a.actor_id ≡ true)
      → all q (approvers decision round (record_approval a rows)) ≡ true
  unfolding record_approval approvers
  approvers-record_approval q a rows kept new = ground (arith, kept, new)

  -- The same, for a row that is not in the table yet.
  pub approvers-cons :
      (q : String → Bool) (a : Approval D) (rows : List (Approval D))
      → all q (approvers decision round rows) ≡ true
      → ((a.decision == decision) ≡ true → q a.actor_id ≡ true)
      → all q (approvers decision round (a ∷ rows)) ≡ true
  unfolding approvers
  approvers-cons q a rows kept new = ground (arith, kept, new)
