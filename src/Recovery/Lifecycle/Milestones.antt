-- ===== src/Recovery/Lifecycle/Milestones.antt =====
-- Every way to a published recovery validates, reviews, verifies and has approved a fresh patch.
use coder_er.Base.{ℕ, zero, suc, ◌≤◌, ◌≡◌, refl, true, List, [], ◌∷◌, contains, ok, All, arith}
use coder_er.Base.Machine.{run, run-milestones}
use coder_er.Recovery.Status.{
  RecoveryRunStatus, recovery_run_status_finite, recovery_run_status_equality,
  awaiting_publication_approval, budget_exceeded, cancelled, cleanup_failed, model_failed,
  package_building, patch_generating, patch_planning, patch_rejected, patch_validating,
  policy_blocked, policy_check, published, ready_to_publish, requested, security_rejected,
  security_review, timed_out, tool_failed, verification_failed, verifying, worktree_failed,
  worktree_preparing,
}
use coder_er.Recovery.Lifecycle.{assert_recovery_transition}

-- How far a run has come, as the number of the last milestone that it need not repeat.
rank : RecoveryRunStatus → ℕ
rank policy_check = 1
rank worktree_preparing = 2
rank patch_planning = 3
rank patch_generating = 4
rank patch_validating = 5
rank security_review = 6
rank verifying = 7
rank package_building = 8
rank awaiting_publication_approval = 9
rank ready_to_publish = 10
rank published = 11
rank patch_rejected = 2
rank security_rejected = 2
rank verification_failed = 2
rank model_failed = 2
rank tool_failed = 2
rank worktree_failed = 1
rank _ = 0

milestone : ℕ → RecoveryRunStatus
milestone zero = requested
milestone (suc zero) = policy_check
milestone (suc (suc zero)) = worktree_preparing
milestone (suc (suc (suc zero))) = patch_planning
milestone (suc (suc (suc (suc zero)))) = patch_generating
milestone (suc (suc (suc (suc (suc zero))))) = patch_validating
milestone (suc (suc (suc (suc (suc (suc zero)))))) = security_review
milestone (suc (suc (suc (suc (suc (suc (suc zero))))))) = verifying
milestone (suc (suc (suc (suc (suc (suc (suc (suc zero)))))))) = package_building
milestone (suc (suc (suc (suc (suc (suc (suc (suc (suc zero))))))))) = awaiting_publication_approval
milestone (suc (suc (suc (suc (suc (suc (suc (suc (suc (suc zero)))))))))) = ready_to_publish
milestone _ = published

abbrev pub planning_statuses : List RecoveryRunStatus
planning_statuses =
    requested ∷ patch_planning ∷ patch_rejected ∷ security_rejected ∷ verification_failed
    ∷ worktree_failed ∷ model_failed ∷ tool_failed ∷ policy_blocked ∷ cancelled ∷ timed_out
    ∷ budget_exceeded ∷ cleanup_failed ∷ []

abbrev pub publish_milestones : List RecoveryRunStatus
publish_milestones =
    patch_generating ∷ patch_validating ∷ security_review ∷ verifying ∷ package_building
    ∷ awaiting_publication_approval ∷ ready_to_publish ∷ published ∷ []

starts_low : (s : RecoveryRunStatus) → contains planning_statuses s ≡ true → rank s ≤ 3
unfolding rank
starts_low requested h = omega arith
starts_low _ h = ground arith

-- From the request, from the planning of a new patch, and from each terminal status but PUBLISHED
-- (some of which permit a retry), a path of accepted changes to PUBLISHED asks for the generation
-- of a patch, its validation, the security review, the verification, the packaging, the human
-- approval and the readiness to publish.
pub run-published_milestones :
    (s : RecoveryRunStatus) (path : List RecoveryRunStatus)
    → contains planning_statuses s ≡ true
    → run assert_recovery_transition s path ≡ ok published
    → All (λ gate. contains path gate ≡ true) publish_milestones
unfolding rank milestone assert_recovery_transition
run-published_milestones s path start h =
    let low = starts_low s start in
    run-milestones recovery_run_status_finite assert_recovery_transition rank milestone refl s
      published path (4 ∷ 5 ∷ 6 ∷ 7 ∷ 8 ∷ 9 ∷ 10 ∷ 11 ∷ []) h (omega arith)
