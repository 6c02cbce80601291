-- ===== src/Publication/Lifecycle.antt =====
-- Which status changes a publication may make (packages/publication/src/lifecycle.ts).
pub mod Terminal
pub mod Milestones
use coder_er.Base.{Bool, not, List, [], ◌∷◌, ◌==◌, contains, Result, ok, throw_if, if◌then◌else◌}
use coder_er.Base.Machine.{InvalidTransition, invalid_transition}
use coder_er.Publication.Status.{
  PublicationStatus, publication_requested, policy_check, commit_materializing, branch_publishing,
  draft_pr_creating, ci_monitoring, review_monitoring, awaiting_review, ready_for_human_merge,
  merged, post_merge_verifying, recovery_confirmed, closed, publication_blocked, push_failed,
  pr_creation_failed, ci_failed, changes_requested, revision_required, base_branch_stale,
  security_blocked, post_merge_failed, merge_reverted, cancelled, timed_out,
  publication_status_equality,
}

abbrev pub terminal : List PublicationStatus
terminal =
    closed ∷ publication_blocked ∷ cancelled ∷ timed_out ∷ post_merge_failed ∷ merge_reverted ∷ []

unfoldable pub is_terminal_publication_status : PublicationStatus → Bool
is_terminal_publication_status status = contains terminal status

-- The table of permitted changes.
unfoldable pub transitions : PublicationStatus → List PublicationStatus
transitions publication_requested = policy_check ∷ cancelled ∷ []
transitions policy_check =
    commit_materializing ∷ publication_blocked ∷ base_branch_stale ∷ security_blocked ∷ cancelled
    ∷ []
transitions commit_materializing =
    branch_publishing ∷ publication_blocked ∷ base_branch_stale ∷ timed_out ∷ []
transitions branch_publishing =
    draft_pr_creating ∷ publication_blocked ∷ push_failed ∷ timed_out ∷ []
transitions draft_pr_creating =
    ci_monitoring ∷ publication_blocked ∷ base_branch_stale ∷ pr_creation_failed ∷ timed_out ∷ []
transitions ci_monitoring = review_monitoring ∷ ci_failed ∷ security_blocked ∷ cancelled ∷ []
transitions review_monitoring =
    awaiting_review ∷ changes_requested ∷ security_blocked ∷ cancelled ∷ []
transitions awaiting_review =
    ready_for_human_merge ∷ changes_requested ∷ base_branch_stale ∷ ci_failed ∷ security_blocked
    ∷ cancelled ∷ []
transitions ready_for_human_merge =
    merged ∷ changes_requested ∷ base_branch_stale ∷ ci_failed ∷ security_blocked ∷ []
transitions merged = post_merge_verifying ∷ merge_reverted ∷ []
transitions post_merge_verifying = recovery_confirmed ∷ post_merge_failed ∷ merge_reverted ∷ []
transitions recovery_confirmed = closed ∷ []
transitions closed = []
transitions publication_blocked = []
transitions push_failed = branch_publishing ∷ cancelled ∷ []
transitions pr_creation_failed = draft_pr_creating ∷ cancelled ∷ []
transitions ci_failed = ci_monitoring ∷ revision_required ∷ cancelled ∷ []
transitions changes_requested = revision_required ∷ cancelled ∷ []
transitions revision_required = policy_check ∷ cancelled ∷ []
transitions base_branch_stale = revision_required ∷ cancelled ∷ []
transitions security_blocked = revision_required ∷ cancelled ∷ []
transitions post_merge_failed = []
transitions merge_reverted = []
transitions cancelled = []
transitions timed_out = []

unfoldable pub assert_publication_transition :
    PublicationStatus → PublicationStatus → Result (InvalidTransition PublicationStatus) (Unit {0})
unfolding transitions
assert_publication_transition from to =
    if from == to
    then ok tt
    else throw_if (not (contains (transitions from) to)) (invalid_transition from to)
