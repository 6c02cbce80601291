-- ===== src/Agents/Citations/Plans.antt =====
-- Treatment plans whose citations are grounded and whose steps are numbered in order.
use coder_er.Base.{
  ℕ, zero, suc, ◌<◌, ◌≡◌, ◌≢◌, ◌↔◌, refl, sym, ap, Bool, true, false, not, ◌&&◌, List, [], ◌∷◌, map,
  length, contains, Text, ◌==◌, nat_equality, list_equality, nat_beq_iff, ◌∙◌, All, arith,
}
use coder_er.Security.Requests.{trim}
use coder_er.Agents.Citations.{
  ContextItem, TreatmentPlanStep, TreatmentPlan, citation_key, validate_citations, step_citations,
  set_of, out_of_place, validate_treatment_plan_grounding,
}
use coder_er.Agents.Citations.Grounded.{
  IsGrounded, IsDistinct, is_empty-append, is_empty-problem_if, validate_citations-errors,
  validate_citations_iff,
}

-- The numbers from the first, as many as the second says.
abbrev pub count_from : ℕ → ℕ → List ℕ
count_from first zero = []
count_from first (suc n) = first ∷ count_from (suc first) n

in_place_iff :
    (i : ℕ) (ns : List ℕ) → (out_of_place i ns ≡ false) ↔ (ns ≡ count_from (suc i) (length ns))
in_place_iff i [] = (λ h. refl, λ h. refl)
in_place_iff i (n ∷ ns) = ground (arith, in_place_iff (suc i) ns)

contains-count_from : (first n x : ℕ) → x < first → contains (count_from first n) x ≡ false
contains-count_from first zero x h = refl
contains-count_from first (suc n) x h =
    let rest = contains-count_from (suc first) n x (omega arith) in ground (arith, rest)

set_of-count_from : (first n : ℕ) → set_of (count_from first n) ≡ count_from first n
set_of-count_from first zero = refl
set_of-count_from first (suc n) =
    rw (set_of-count_from (suc first) n, contains-count_from (suc first) n first (omega arith)) refl

-- Numbers in their places do not repeat.
in_place-distinct :
    (ns : List ℕ) → out_of_place 0 ns ≡ false → (length (set_of ns) == length ns) ≡ true
in_place-distinct ns h =
    let counted : ns ≡ count_from 1 (length ns) = (in_place_iff 0 ns).0 h in
    (nat_beq_iff _ _).1
      (ap length (ap set_of counted ∙ set_of-count_from 1 (length ns) ∙ sym counted))

abbrev pub sequences : List TreatmentPlanStep → List ℕ
sequences steps = map (λ s. TreatmentPlanStep.sequence s) steps

-- What a valid plan is: its steps are numbered 1, 2, 3 and so on, what they cite stands in the
-- context, no two citations of the whole plan have one key, and the rollback is not blank.
pub record IsGroundedPlan (items : List ContextItem) (plan : TreatmentPlan) : Type 0 where
  pub citations : All (IsGrounded items) (step_citations plan.steps)
  pub distinct : IsDistinct (map citation_key (step_citations plan.steps))
  pub numbered : sequences plan.steps ≡ count_from 1 (length (sequences plan.steps))
  pub rollback : trim plan.rollback_strategy ≢ []

not_empty : (t : Text) → ((t == []) ≡ false) ↔ (t ≢ [])
not_empty [] = (λ h. cc, λ h. absurd (h refl))
not_empty (c ∷ t) = (λ h. λ e. cc, λ h. refl)

plan_valid :
    (plan : TreatmentPlan) (items : List ContextItem)
    → (validate_treatment_plan_grounding plan items).valid ≡ (
        (validate_citations (step_citations plan.steps) items).valid
        && not (not (length (set_of (sequences plan.steps)) == length (sequences plan.steps)))
        && not (out_of_place 0 (sequences plan.steps))
        && not (trim plan.rollback_strategy == []))
unfolding validate_treatment_plan_grounding
plan_valid plan items = simp (is_empty-append, is_empty-problem_if, validate_citations-errors)

four :
    (a b c d : Bool)
    → (a && not (not b) && not c && not d) ≡ true
    → (a ≡ true) × (b ≡ true) × (c ≡ false) × (d ≡ false)
four a b c d h = ground arith

of_four :
    (a b c d : Bool)
    → a ≡ true
    → b ≡ true
    → c ≡ false
    → d ≡ false
    → (a && not (not b) && not c && not d) ≡ true
of_four a b c d p q r s = ground arith

-- A treatment plan is valid exactly when its steps' citations, taken together, are grounded in the
-- context and have different keys, the steps are numbered from 1 without a gap, and the rollback
-- strategy is not blank.
pub validate_treatment_plan_grounding_iff :
    (plan : TreatmentPlan) (items : List ContextItem)
    → ((validate_treatment_plan_grounding plan items).valid ≡ true) ↔ IsGroundedPlan items plan
validate_treatment_plan_grounding_iff plan items =
    let cited = validate_citations_iff (step_citations plan.steps) items in
    let places = in_place_iff 0 (sequences plan.steps) in
    let blank = not_empty (trim plan.rollback_strategy) in
    (
      λ h.
          let (c, _, n, r) = four _ _ _ _ (sym (plan_valid plan items) ∙ h) in
          record {
            citations = (cited.0 c).0;
            distinct = (cited.0 c).1;
            numbered = places.0 n;
            rollback = blank.0 r;
          },
      λ g.
          let n = places.1 g.numbered in
          plan_valid plan items
          ∙ of_four _ _ _ _ (cited.1 (g.citations, g.distinct))
              (in_place-distinct (sequences plan.steps) n) n (blank.1 g.rollback),
    )
