-- ===== src/Recovery/Lifecycle/Terminal.antt =====
-- What a recovery that is reported terminal may still do.
use coder_er.Base.{◌≡◌, refl, ◌⊎◌, true, List, [], ◌∷◌, contains, ok}
use coder_er.Base.Machine.{check-leaves}
use coder_er.Recovery.Status.{
  RecoveryRunStatus, recovery_run_status_finite, recovery_run_status_equality, patch_planning,
  worktree_preparing,
}
use coder_er.Recovery.Lifecycle.{is_recovery_terminal, assert_recovery_transition}

abbrev pub retry_statuses : List RecoveryRunStatus
retry_statuses = patch_planning ∷ worktree_preparing ∷ []

-- A recovery run at a terminal status changes, if it changes, to the planning of a patch or to the
-- preparation of the worktree, and to nothing later.
pub assert_recovery_transition-terminal :
    (s t : RecoveryRunStatus)
    → is_recovery_terminal s ≡ true
    → assert_recovery_transition s t ≡ ok tt
    → (t ≡ s) ⊎ (contains retry_statuses t ≡ true)
unfolding assert_recovery_transition is_recovery_terminal
assert_recovery_transition-terminal s t ended h =
    check-leaves recovery_run_status_finite assert_recovery_transition is_recovery_terminal
      (contains retry_statuses) s t refl ended h
