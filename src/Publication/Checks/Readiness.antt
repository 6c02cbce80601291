-- ===== src/Publication/Checks/Readiness.antt =====
-- `evaluateMergeReadiness` against a description of readiness that makes no pass over the reviews.
use coder_er.Base.{
  ◌≡◌, ◌≤◌, refl, ◌↔◌, ◌⊎◌, Bool, true, false, not, ◌&&◌, String, Option, none, some, List, [], ◌∷◌,
  ◌++◌, arith, ltb, any, All, find, ◌==◌, string_equality,
}
use coder_er.Publication.Types.{
  NormalizedCheckStatus, ReviewState, Review, Check, MergeReadinessInput, PublicationPolicy,
  review_state_equality, check_status_equality,
}
use coder_er.Publication.Checks.{
  evaluate_merge_readiness, required_check_blockers, check_blockers, found_blockers,
  review_blockers, is_empty, push_if, status_accepted, latest_by_actor, values, merge_blockers,
}
use coder_er.Publication.Checks.Reviews.{
  final_count, count-latest, contains-count, owner_approval, is_empty-code_owner_approvers,
}

-- The first check of this name has passed or is neutral.
abbrev pub IsGreen : List Check → String → Type 0
IsGreen checks name =
    (c : Check) × (find (λ (k : Check). k.name == name) checks ≡ some c)
    × ((c.status ≡ NormalizedCheckStatus.passed) ⊎ (c.status ≡ NormalizedCheckStatus.neutral))

pub record IsReady (input : MergeReadinessInput) (policy : PublicationPolicy) : Type 0 where
  pub base_current : input.base_commit_current ≡ true
  pub integrity : input.publication_integrity_valid ≡ true
  pub checks_green : All (IsGreen input.required_checks) policy.required_checks
  pub approved :
      policy.required_approvals ≤ final_count (λ s. s == ReviewState.approved) input.reviews
  pub undisputed : final_count (λ s. s == ReviewState.changes_requested) input.reviews ≡ 0
  pub owned : policy.require_code_owner_approval ≡ true → any owner_approval input.reviews ≡ true
  pub threads_resolved : input.unresolved_blocking_threads ≡ 0
  pub findings_closed : input.blocking_security_findings ≡ 0

is_empty-append {ℓ} :
    {A : Type ℓ} (xs ys : List A) → is_empty (xs ++ ys) ≡ (is_empty xs && is_empty ys)
is_empty-append [] ys = refl
is_empty-append (x ∷ xs) ys = refl

status_accepted_iff :
    (s : NormalizedCheckStatus)
    → (status_accepted s ≡ true)
      ↔ ((s ≡ NormalizedCheckStatus.passed) ⊎ (s ≡ NormalizedCheckStatus.neutral))
status_accepted_iff NormalizedCheckStatus.queued = ground arith
status_accepted_iff _ = ground arith

found_blockers_iff :
    (name : String) (o : Option Check)
    → (is_empty (found_blockers name o) ≡ true) ↔ (
        (c : Check) × (o ≡ some c)
        × ((c.status ≡ NormalizedCheckStatus.passed) ⊎ (c.status ≡ NormalizedCheckStatus.neutral)))
unfolding found_blockers
found_blockers_iff name none = (λ h. cc, λ (c, e, _). cc)
found_blockers_iff name (some c) = (
  λ h. (c, refl, (status_accepted_iff c.status).0 (ground arith)),
  λ (d, e, green). ground (arith, (status_accepted_iff d.status).1 green),
)

check_blockers_iff :
    (checks : List Check) (name : String)
    → (is_empty (check_blockers checks name) ≡ true) ↔ IsGreen checks name
unfolding check_blockers
check_blockers_iff checks name =
    found_blockers_iff name (find (λ (k : Check). k.name == name) checks)

required_check_blockers_iff :
    (checks : List Check) (names : List String)
    → (is_empty (required_check_blockers names checks) ≡ true) ↔ All (IsGreen checks) names
unfolding required_check_blockers
required_check_blockers_iff checks [] = (λ h. tt, λ h. refl)
required_check_blockers_iff checks (name ∷ names) = ground (
  arith,
  is_empty-append (check_blockers checks name) (required_check_blockers names checks),
  check_blockers_iff checks name,
  required_check_blockers_iff checks names,
)

abbrev ReviewsReady : PublicationPolicy → List Review → Type 0
ReviewsReady policy reviews =
    (policy.required_approvals ≤ final_count (λ s. s == ReviewState.approved) reviews)
    × (final_count (λ s. s == ReviewState.changes_requested) reviews ≡ 0)
    × (policy.require_code_owner_approval ≡ true → any owner_approval reviews ≡ true)

review_blockers_iff :
    (policy : PublicationPolicy) (reviews : List Review)
    → (is_empty (review_blockers policy reviews) ≡ true) ↔ ReviewsReady policy reviews
unfolding review_blockers
review_blockers_iff policy reviews = ground (
  arith,
  count-latest (λ s. s == ReviewState.approved) reviews,
  count-latest (λ s. s == ReviewState.changes_requested) reviews,
  contains-count (values (latest_by_actor [] reviews)) ReviewState.changes_requested,
  is_empty-code_owner_approvers [] reviews,
)

is_empty-push_if {ℓ} : {A : Type ℓ} (b : Bool) (x : A) → is_empty (push_if b x) ≡ not b
is_empty-push_if true x = refl
is_empty-push_if false x = refl

is_empty-merge_blockers :
    (input : MergeReadinessInput) (policy : PublicationPolicy)
    → is_empty (merge_blockers input policy) ≡ (
        not (not input.base_commit_current)
        && (not (not input.publication_integrity_valid)
            && (is_empty (required_check_blockers policy.required_checks input.required_checks)
                && (is_empty (review_blockers policy input.reviews)
                    && (not (ltb 0 input.unresolved_blocking_threads)
                        && not (ltb 0 input.blocking_security_findings))))))
unfolding merge_blockers
is_empty-merge_blockers input policy = simp (is_empty-append, is_empty-push_if)

-- A pull request is reported ready exactly when the base branch has not moved, the published tree
-- is intact, the first check of each required name has passed or is neutral, the actors whose last
-- review approves are as many as required, nobody's last review requests changes, a code owner has
-- approved at some time if that is required, and no blocking thread or security finding is open.
pub evaluate_merge_readiness_iff :
    (input : MergeReadinessInput) (policy : PublicationPolicy)
    → ((evaluate_merge_readiness input policy).ready ≡ true) ↔ IsReady input policy
unfolding evaluate_merge_readiness
evaluate_merge_readiness_iff input policy =
    let parts = is_empty-merge_blockers input policy in
    let checks = required_check_blockers_iff input.required_checks policy.required_checks in
    let reviews = review_blockers_iff policy input.reviews in
    (λ h. ground (arith, parts, checks, reviews), λ r. ground (arith, parts, checks, reviews))
