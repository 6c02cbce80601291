-- ===== src/Recovery/Status.antt =====
-- The statuses of a recovery run (packages/contracts/src/index.ts).
use coder_er.Base.{ℕ, ◌≡◌, refl, some, List, [], ◌∷◌, get_elem?, Equality}
use coder_er.Base.Finite.{Finite, equality}

pub data RecoveryRunStatus : Type 0 where
  requested policy_check worktree_preparing patch_planning patch_generating patch_validating
        security_review verifying package_building awaiting_publication_approval ready_to_publish
        published policy_blocked cancelled timed_out patch_rejected security_rejected
        verification_failed worktree_failed model_failed tool_failed budget_exceeded
        cleanup_failed :
      RecoveryRunStatus

abbrev index : RecoveryRunStatus → ℕ
index requested = 0
index policy_check = 1
index worktree_preparing = 2
index patch_planning = 3
index patch_generating = 4
index patch_validating = 5
index security_review = 6
index verifying = 7
index package_building = 8
index awaiting_publication_approval = 9
index ready_to_publish = 10
index published = 11
index policy_blocked = 12
index cancelled = 13
index timed_out = 14
index patch_rejected = 15
index security_rejected = 16
index verification_failed = 17
index worktree_failed = 18
index model_failed = 19
index tool_failed = 20
index budget_exceeded = 21
index cleanup_failed = 22

abbrev members : List RecoveryRunStatus
members =
    requested ∷ policy_check ∷ worktree_preparing ∷ patch_planning ∷ patch_generating
    ∷ patch_validating ∷ security_review ∷ verifying ∷ package_building
    ∷ awaiting_publication_approval ∷ ready_to_publish ∷ published ∷ policy_blocked ∷ cancelled
    ∷ timed_out ∷ patch_rejected ∷ security_rejected ∷ verification_failed ∷ worktree_failed
    ∷ model_failed ∷ tool_failed ∷ budget_exceeded ∷ cleanup_failed ∷ []

pub found : (s : RecoveryRunStatus) → get_elem? members (index s) ≡ some s
found requested = refl
found _ = refl

abbrev pub recovery_run_status_finite : Finite RecoveryRunStatus
recovery_run_status_finite = record { index = index; members = members; found = found }

instance abbrev pub recovery_run_status_equality : Equality RecoveryRunStatus
recovery_run_status_equality = equality recovery_run_status_finite
