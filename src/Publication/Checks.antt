-- ===== src/Publication/Checks.antt =====
-- GitHub's check states, and whether a pull request may be merged by a person
-- (packages/publication/src/checks.ts). A blocker's message is its constructor.
pub mod Reviews
pub mod Readiness
pub mod Normalized
use coder_er.Base.{
  ℕ, String, Text, codes, lower, Bool, true, false, not, ◌&&◌, ◌||◌, Option, none, some, List, [],
  ◌∷◌, ◌++◌, ltb, length, keep, find, contains, ◌==◌, string_equality, nat_equality, list_equality,
  if◌then◌else◌,
}
use coder_er.Base.Dict
use coder_er.Base.Dict.{Dict}
use coder_er.Publication.Types.{
  NormalizedCheckStatus, ReviewState, PublicationPolicy, Check, Review, MergeReadinessInput,
  check_status_equality, review_state_equality,
}

abbrev pub is_text : Text → String → Bool
is_text t s = t == codes s

-- The `switch` on the conclusion.
unfoldable pub conclusion_status : Option Text → NormalizedCheckStatus
conclusion_status none = NormalizedCheckStatus.running
conclusion_status (some c) =
    if is_text c "success"
    then NormalizedCheckStatus.passed
    else if is_text c "failure" || is_text c "action_required" || is_text c "startup_failure"
    then NormalizedCheckStatus.failed
    else if is_text c "cancelled"
    then NormalizedCheckStatus.cancelled
    else if is_text c "timed_out"
    then NormalizedCheckStatus.timed_out
    else if is_text c "neutral" || is_text c "skipped"
    then NormalizedCheckStatus.neutral
    else if is_text c "stale"
    then NormalizedCheckStatus.stale
    else NormalizedCheckStatus.running

abbrev pub lower_option : Option Text → Option Text
lower_option none = none
lower_option (some c) = some (lower c)

unfoldable pub normalize_github_check : Text → Option Text → NormalizedCheckStatus
unfolding conclusion_status
normalize_github_check status conclusion =
    let s = lower status in
    if is_text s "queued" || is_text s "requested" || is_text s "waiting" || is_text s "pending"
    then NormalizedCheckStatus.queued
    else if is_text s "in_progress" || is_text s "running"
    then NormalizedCheckStatus.running
    else conclusion_status (lower_option conclusion)

pub data Blocker : Type 0 where
  base_moved : Blocker
  integrity_lost : Blocker
  check_missing : String → Blocker
  check_not_passed : String → Blocker
  approvals_short : ℕ → ℕ → Blocker
  changes_asked : Blocker
  code_owner_missing : Blocker
  threads_unresolved : Blocker
  security_findings : Blocker

pub record MergeReadinessDecision : Type 0 where
  pub ready : Bool
  pub blockers : List Blocker

-- `if (test) blockers.push(b)`
abbrev pub push_if {ℓ} : {A : Type ℓ} → Bool → A → List A
push_if true b = b ∷ []
push_if false b = []

abbrev pub is_empty {ℓ} : {A : Type ℓ} → List A → Bool
is_empty [] = true
is_empty (x ∷ xs) = false

abbrev pub status_accepted : NormalizedCheckStatus → Bool
status_accepted s = s == NormalizedCheckStatus.passed || s == NormalizedCheckStatus.neutral

found_blockers : String → Option Check → List Blocker
found_blockers required none = check_missing required ∷ []
found_blockers required (some c) =
    push_if (not (status_accepted c.status)) (check_not_passed required)

check_blockers : List Check → String → List Blocker
unfolding found_blockers
check_blockers checks required =
    found_blockers required (find (λ (c : Check). c.name == required) checks)

required_check_blockers : List String → List Check → List Blocker
unfolding check_blockers
required_check_blockers [] checks = []
required_check_blockers (r ∷ rs) checks =
    check_blockers checks r ++ required_check_blockers rs checks

pub latest_by_actor : Dict String ReviewState → List Review → Dict String ReviewState
latest_by_actor latest [] = latest
latest_by_actor latest (r ∷ rs) = latest_by_actor (Dict.set latest r.actor_id r.state) rs

-- A `Set` of the code owners who have approved at some time.
add_approver : List String → Review → List String
add_approver approvers r =
    if r.code_owner && r.state == ReviewState.approved && not (contains approvers r.actor_id)
    then approvers ++ r.actor_id ∷ []
    else approvers

pub code_owner_approvers : List String → List Review → List String
unfolding add_approver
code_owner_approvers approvers [] = approvers
code_owner_approvers approvers (r ∷ rs) = code_owner_approvers (add_approver approvers r) rs

pub values : Dict String ReviewState → List ReviewState
values [] = []
values ((k, v) ∷ m) = v ∷ values m

approval_count : List ReviewState → ℕ
approval_count states = length (keep (λ s. s == ReviewState.approved) states)

review_blockers : PublicationPolicy → List Review → List Blocker
unfolding latest_by_actor code_owner_approvers values approval_count
review_blockers policy reviews =
    let latest = values (latest_by_actor [] reviews) in
    let approvals = approval_count latest in
    push_if (ltb approvals policy.required_approvals)
      (approvals_short approvals policy.required_approvals)
    ++ (push_if (contains latest ReviewState.changes_requested) changes_asked
        ++ push_if
            (policy.require_code_owner_approval && is_empty (code_owner_approvers [] reviews))
            code_owner_missing)

merge_blockers : MergeReadinessInput → PublicationPolicy → List Blocker
unfolding required_check_blockers review_blockers
merge_blockers input policy =
    push_if (not input.base_commit_current) base_moved
    ++ (push_if (not input.publication_integrity_valid) integrity_lost
        ++ (required_check_blockers policy.required_checks input.required_checks
            ++ (review_blockers policy input.reviews
                ++ (push_if (ltb 0 input.unresolved_blocking_threads) threads_unresolved
                    ++ push_if (ltb 0 input.blocking_security_findings) security_findings))))

pub evaluate_merge_readiness : MergeReadinessInput → PublicationPolicy → MergeReadinessDecision
unfolding merge_blockers
evaluate_merge_readiness input policy =
    let blockers = merge_blockers input policy in
    record { ready = is_empty blockers; blockers = blockers }
