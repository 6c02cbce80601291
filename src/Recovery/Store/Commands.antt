-- ===== src/Recovery/Store/Commands.antt =====
-- The operations on a recovery run as commands, and what each asks of the lease.
use coder_er.Base.{ℕ, Bool, String, Option, some, nat_equality}
use coder_er.Leases.{
  Lease, LeaseAction, claim, renew, write, give_up, clear, leave, accepted, clamp_lease,
}
use coder_er.Leases.Columns.{lease_of}
use coder_er.Approvals.{StoreActorContext}
use coder_er.Recovery.Status.{RecoveryRunStatus, recovery_run_status_equality}
use coder_er.Recovery.Store.{
  RecoveryRunState, PatchRow, PublicationDecision, acquire_lease, heartbeat, restart_for_retry,
  release_lease, checkpoint, record_worktree, record_patch, complete,
}
use coder_er.Recovery.Store.Requests.{
  DecisionContext, request_cancellation, resume_recovery, request_revision, decide_publication,
  mark_cleanup,
}

-- What a worker does in its own name.
pub data WorkerCommand : Type 0 where
  acquire beat : ℕ → WorkerCommand
  restart release : WorkerCommand
  reach : RecoveryRunStatus → WorkerCommand
  prepare : String → String → String → String → WorkerCommand
  patch : Bool → PatchRow → WorkerCommand
  finish : RecoveryRunStatus → Option String → WorkerCommand
  clean : Bool → Bool → Option String → WorkerCommand

pub data RecoveryCommand : Type 0 where
  by_worker : String → WorkerCommand → RecoveryCommand
  cancel : RecoveryCommand
  resume : ℕ → RecoveryCommand
  revise : ℕ → String → RecoveryCommand
  decide : DecisionContext → StoreActorContext → PublicationDecision → ℕ → RecoveryCommand

unfoldable pub work : String → WorkerCommand → ℕ → RecoveryRunState → Option RecoveryRunState
work w (acquire seconds) now r = acquire_lease w seconds now r
work w (beat seconds) now r = accepted (heartbeat w seconds now r)
work w restart now r = accepted (restart_for_retry w now r)
work w release now r = accepted (release_lease w now r)
work w (reach stage) now r = accepted (checkpoint w now stage r)
work w (prepare path_ref path branch base) now r =
    accepted (record_worktree w now path_ref path branch base r)
work w (patch elsewhere p) now r = accepted (record_patch w now elsewhere p r)
work w (finish status code) now r = accepted (complete w now status code r)
work w (clean absent deleted code) now r = some (mark_cleanup w absent deleted code r)

-- `none` where the operation throws or finds no row.
unfoldable pub perform : RecoveryCommand → ℕ → RecoveryRunState → Option RecoveryRunState
unfolding work
perform (by_worker w c) now r = work w c now r
perform cancel now r = some (request_cancellation now r)
perform (resume clock) now r = accepted (resume_recovery clock r)
perform (revise expected comment) now r = accepted (request_revision expected comment r)
perform (decide d actor decision expected) now r =
    accepted (decide_publication d actor decision expected r)

abbrev pub worker_action : String → WorkerCommand → LeaseAction
worker_action w (acquire seconds) = claim w (clamp_lease seconds)
worker_action w (beat seconds) = renew w (clamp_lease seconds)
worker_action w release = give_up w
worker_action w (finish status code) = give_up w
worker_action w restart = write w
worker_action w (reach stage) = write w
worker_action w (prepare path_ref path branch base) = write w
worker_action w (patch elsewhere p) = write w
worker_action w (clean absent deleted code) = leave

abbrev pub action : RecoveryCommand → LeaseAction
action (by_worker w c) = worker_action w c
action (resume clock) = clear
action (revise expected comment) = clear
action cancel = leave
action (decide d actor decision expected) = leave

abbrev pub lease : RecoveryRunState → Option Lease
lease r = lease_of r.lease_owner r.lease_expires
