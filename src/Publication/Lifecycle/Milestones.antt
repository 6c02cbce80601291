-- ===== src/Publication/Lifecycle/Milestones.antt =====
-- Every way to a merge passes the policy check, the publication steps and the human review.
use coder_er.Base.{ℕ, zero, suc, ◌≤◌, ◌≡◌, refl, true, List, [], ◌∷◌, contains, ok, All, arith}
use coder_er.Base.Machine.{run, run-milestones}
use coder_er.Publication.Status.{
  PublicationStatus, publication_status_finite, publication_status_equality, awaiting_review,
  base_branch_stale, branch_publishing, changes_requested, ci_failed, ci_monitoring, closed,
  commit_materializing, draft_pr_creating, merged, policy_check, post_merge_verifying,
  pr_creation_failed, publication_requested, push_failed, ready_for_human_merge, recovery_confirmed,
  review_monitoring, revision_required, security_blocked,
}
use coder_er.Publication.Lifecycle.{assert_publication_transition}

-- How far a run has come, as the number of the last milestone that it need not repeat.
rank : PublicationStatus → ℕ
rank policy_check = 1
rank commit_materializing = 2
rank branch_publishing = 3
rank draft_pr_creating = 4
rank ci_monitoring = 5
rank review_monitoring = 6
rank awaiting_review = 7
rank ready_for_human_merge = 8
rank merged = 9
rank post_merge_verifying = 10
rank recovery_confirmed = 11
rank closed = 12
rank push_failed = 2
rank pr_creation_failed = 3
rank ci_failed = 4
rank _ = 0

milestone : ℕ → PublicationStatus
milestone zero = publication_requested
milestone (suc zero) = policy_check
milestone (suc (suc zero)) = commit_materializing
milestone (suc (suc (suc zero))) = branch_publishing
milestone (suc (suc (suc (suc zero)))) = draft_pr_creating
milestone (suc (suc (suc (suc (suc zero))))) = ci_monitoring
milestone (suc (suc (suc (suc (suc (suc zero)))))) = review_monitoring
milestone (suc (suc (suc (suc (suc (suc (suc zero))))))) = awaiting_review
milestone (suc (suc (suc (suc (suc (suc (suc (suc zero)))))))) = ready_for_human_merge
milestone (suc (suc (suc (suc (suc (suc (suc (suc (suc zero))))))))) = merged
milestone (suc (suc (suc (suc (suc (suc (suc (suc (suc (suc zero)))))))))) = post_merge_verifying
milestone (suc (suc (suc (suc (suc (suc (suc (suc (suc (suc (suc zero))))))))))) =
    recovery_confirmed
milestone _ = closed

abbrev pub restart_statuses : List PublicationStatus
restart_statuses =
    publication_requested ∷ changes_requested ∷ revision_required ∷ base_branch_stale
    ∷ security_blocked ∷ []

abbrev pub merge_milestones : List PublicationStatus
merge_milestones =
    policy_check ∷ commit_materializing ∷ branch_publishing ∷ draft_pr_creating ∷ ci_monitoring
    ∷ review_monitoring ∷ awaiting_review ∷ ready_for_human_merge ∷ merged ∷ []

starts_low : (s : PublicationStatus) → contains restart_statuses s ≡ true → rank s ≤ 0
unfolding rank
starts_low publication_requested h = omega arith
starts_low _ h = ground arith

-- A publication that starts, or starts again after a required revision, requested changes, a stale
-- base branch or a security block, reaches MERGED only along a path of accepted changes that asks
-- for the policy check, the commit, the branch, the draft pull request, the CI and review
-- monitoring, the review, the readiness for a human merge and the merge itself.
pub run-merged_milestones :
    (s : PublicationStatus) (path : List PublicationStatus)
    → contains restart_statuses s ≡ true
    → run assert_publication_transition s path ≡ ok merged
    → All (λ gate. contains path gate ≡ true) merge_milestones
unfolding rank milestone assert_publication_transition
run-merged_milestones s path start h =
    let low = starts_low s start in
    run-milestones publication_status_finite assert_publication_transition rank milestone refl s
      merged path (1 ∷ 2 ∷ 3 ∷ 4 ∷ 5 ∷ 6 ∷ 7 ∷ 8 ∷ 9 ∷ []) h (omega arith)
