-- ===== src/Investigation/Store/Commands.antt =====
-- The operations on an investigation as commands, and what each asks of the lease.
use coder_er.Base.{ℕ, Bool, String, Option, some}
use coder_er.Leases.{
  Lease, LeaseAction, claim, renew, write, give_up, clear, expire, leave, accepted, clamp_lease,
}
use coder_er.Leases.Columns.{lease_of}
use coder_er.Approvals.{StoreActorContext}
use coder_er.Investigation.Status.{InvestigationStatus}
use coder_er.Investigation.Plan.{PlanApprovalDecision}
use coder_er.Investigation.Store.{
  InvestigationRunState, request_cancellation, resume_investigation, acquire_lease, heartbeat,
  checkpoint, fail_investigation, reconcile_stale,
}
use coder_er.Investigation.Store.Plans.{decide_treatment_plan}

pub data InvestigationCommand : Type 0 where
  acquire beat : String → ℕ → InvestigationCommand
  reach : String → InvestigationStatus → InvestigationCommand
  fail : String → InvestigationStatus → String → InvestigationCommand
  cancel resume : InvestigationCommand
  reconcile : Bool → InvestigationCommand
  decide : StoreActorContext → PlanApprovalDecision → ℕ → InvestigationCommand

-- `none` where the operation throws or finds no row.
unfoldable pub perform :
    InvestigationCommand → ℕ → InvestigationRunState → Option InvestigationRunState
perform (acquire w seconds) now r = acquire_lease w seconds now r
perform (beat w seconds) now r = accepted (heartbeat w seconds now r)
perform (reach w stage) now r = accepted (checkpoint w now stage r)
perform (fail w status code) now r = accepted (fail_investigation w now status code r)
perform cancel now r = some (request_cancellation now r)
perform (reconcile idle) now r = reconcile_stale idle now r
perform resume now r = accepted (resume_investigation r)
perform (decide actor decision expected) now r =
    accepted (decide_treatment_plan actor decision expected r)

abbrev pub action : InvestigationCommand → LeaseAction
action (acquire w seconds) = claim w (clamp_lease seconds)
action (beat w seconds) = renew w (clamp_lease seconds)
action (reach w stage) = write w
action (fail w status code) = give_up w
action cancel = leave
action (reconcile idle) = expire
action resume = clear
action (decide actor decision expected) = leave

abbrev pub lease : InvestigationRunState → Option Lease
lease r = lease_of r.lease_owner r.lease_expires
