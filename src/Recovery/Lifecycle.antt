-- ===== src/Recovery/Lifecycle.antt =====
-- Which status changes a recovery run may make (packages/recovery/src/lifecycle.ts).
pub mod Terminal
pub mod Milestones
use coder_er.Base.{Bool, not, List, [], ◌∷◌, ◌==◌, contains, Result, ok, throw_if, if◌then◌else◌}
use coder_er.Base.Machine.{InvalidTransition, invalid_transition}
use coder_er.Recovery.Status.{
  RecoveryRunStatus, requested, policy_check, worktree_preparing, patch_planning, patch_generating,
  patch_validating, security_review, verifying, package_building, awaiting_publication_approval,
  ready_to_publish, published, policy_blocked, cancelled, timed_out, patch_rejected,
  security_rejected, verification_failed, worktree_failed, model_failed, tool_failed,
  budget_exceeded, cleanup_failed, recovery_run_status_equality,
}

abbrev pub terminal : List RecoveryRunStatus
terminal =
    published ∷ policy_blocked ∷ cancelled ∷ timed_out ∷ patch_rejected ∷ security_rejected
    ∷ verification_failed ∷ worktree_failed ∷ model_failed ∷ tool_failed ∷ budget_exceeded
    ∷ cleanup_failed ∷ []

unfoldable pub is_recovery_terminal : RecoveryRunStatus → Bool
is_recovery_terminal status = contains terminal status

-- The table of permitted changes.
unfoldable pub transitions : RecoveryRunStatus → List RecoveryRunStatus
transitions requested = policy_check ∷ cancelled ∷ []
transitions policy_check = worktree_preparing ∷ policy_blocked ∷ cancelled ∷ []
transitions worktree_preparing = patch_planning ∷ worktree_failed ∷ cancelled ∷ timed_out ∷ []
transitions patch_planning = patch_generating ∷ model_failed ∷ budget_exceeded ∷ cancelled ∷ []
transitions patch_generating =
    patch_validating ∷ model_failed ∷ tool_failed ∷ budget_exceeded ∷ cancelled ∷ timed_out ∷ []
transitions patch_validating = security_review ∷ patch_rejected ∷ cancelled ∷ []
transitions security_review = verifying ∷ security_rejected ∷ cancelled ∷ []
transitions verifying = package_building ∷ verification_failed ∷ cancelled ∷ timed_out ∷ []
transitions package_building = awaiting_publication_approval ∷ tool_failed ∷ cancelled ∷ []
transitions awaiting_publication_approval = ready_to_publish ∷ patch_planning ∷ cancelled ∷ []
transitions ready_to_publish = published ∷ awaiting_publication_approval ∷ cancelled ∷ []
transitions published = []
transitions policy_blocked = []
transitions cancelled = []
transitions timed_out = []
transitions patch_rejected = patch_planning ∷ []
transitions security_rejected = patch_planning ∷ []
transitions verification_failed = patch_planning ∷ []
transitions worktree_failed = worktree_preparing ∷ []
transitions model_failed = patch_planning ∷ []
transitions tool_failed = patch_planning ∷ []
transitions budget_exceeded = []
transitions cleanup_failed = []

unfoldable pub assert_recovery_transition :
    RecoveryRunStatus → RecoveryRunStatus → Result (InvalidTransition RecoveryRunStatus) (Unit {0})
unfolding transitions
assert_recovery_transition from to =
    if from == to
    then ok tt
    else throw_if (not (contains (transitions from) to)) (invalid_transition from to)
