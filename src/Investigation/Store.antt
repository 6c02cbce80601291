-- ===== src/Investigation/Store.antt =====
-- One investigation in the store (packages/database/src/investigation-store.ts): its row, its
-- treatment plan and the operations on them. An operation is a transaction: it returns the run that
-- it leaves, or throws and leaves the run as it was. `now` is the database's clock in seconds; NULL
-- is `none`; the event and audit logs and the error message are left out.
pub mod Plans
pub mod Commands
pub mod Refinement
pub mod Decisions
pub mod Resumption
use coder_er.Base.{
  ℕ, ◌+◌, Bool, true, false, not, ◌&&◌, ◌||◌, String, Option, none, some, List, [], ◌∷◌, any,
  contains, ltb, ◌==◌, nat_equality, string_equality, if◌then◌else◌, Result, ok, err, ◌>>=◌, ◌>>◌,
  throw_if, ◌≡◌, refl, get_elem?, Equality,
}
use coder_er.Base.Machine.{InvalidTransition}
use coder_er.Base.Finite.{Finite, equality}
use coder_er.Leases.{coalesce, owned_by, runs_after, ran_out, is_free, clamp_lease}
use coder_er.Approvals.{StoreActorContext, is_human, Approval, same_key, count_approvers}
use coder_er.Investigation.Status.{
  context_building, triage, mapping, hypothesis, validation, security_review, plan_composition,
  critic_review, InvestigationStatus, investigation_status_equality, requested, policy_check,
  approved, rejected, revision_requested, awaiting_approval, policy_blocked, cancelled,
  budget_exceeded, security_rejected, insufficient_evidence, timed_out, model_failed, tool_failed,
}
use coder_er.Investigation.Plan.{TreatmentPlan}
use coder_er.Investigation.Lifecycle.{assert_investigation_transition}

pub record Checkpoint : Type 0 where
  pub sequence : ℕ
  pub stage : InvestigationStatus
  pub lease_owner : String

pub record InvestigationRunState : Type 0 where
  pub status : InvestigationStatus
  pub current_checkpoint : ℕ
  pub lease_owner : Option String
  pub lease_expires : Option ℕ
  pub heartbeat_at : Option ℕ
  pub started_at : Option ℕ
  pub completed_at : Option ℕ
  pub cancellation_requested_at : Option ℕ
  pub error_code : Option String
  pub checkpoints : List Checkpoint
  pub jobs : List ℕ
  pub plan : Option TreatmentPlan

pub data InvestigationStoreError : Type 0 where
  lease_lost transition_refused not_resumable not_human plan_not_found version_conflict
        not_decidable :
      InvestigationStoreError

-- The row that a created investigation starts as, with the first job queued. A queued job is told by
-- the attempt in its deduplication key.
abbrev pub created : InvestigationRunState
created = record {
  status = requested;
  current_checkpoint = 0;
  lease_owner = none;
  lease_expires = none;
  heartbeat_at = none;
  started_at = none;
  completed_at = none;
  cancellation_requested_at = none;
  error_code = none;
  checkpoints = [];
  jobs = 1 ∷ [];
  plan = none;
}

-- Whether `worker` holds a lease that has not run out.
abbrev pub holds_lease : String → ℕ → InvestigationRunState → Bool
holds_lease worker now r = owned_by r.lease_owner worker && runs_after r.lease_expires now

abbrev pub assert_lease :
    String → ℕ → InvestigationRunState → Result InvestigationStoreError (Unit {0})
assert_lease worker now r = throw_if (not (holds_lease worker now r)) lease_lost

abbrev pub uncancellable : List InvestigationStatus
uncancellable = approved ∷ rejected ∷ cancelled ∷ policy_blocked ∷ security_rejected ∷ []

unfoldable pub request_cancellation : ℕ → InvestigationRunState → InvestigationRunState
request_cancellation now r =
    if contains uncancellable r.status
    then r
    else record r { cancellation_requested_at = coalesce r.cancellation_requested_at now }

abbrev pub refused :
    Result (InvalidTransition InvestigationStatus) (Unit {0})
    → Result InvestigationStoreError (Unit {0})
refused (ok u) = ok u
refused (err e) = err transition_refused

abbrev pub retryable : List InvestigationStatus
retryable = insufficient_evidence ∷ timed_out ∷ model_failed ∷ tool_failed ∷ revision_requested ∷ []

-- The run that a resumption leaves. A job whose key is taken is not queued.
abbrev pub resumed : InvestigationRunState → InvestigationRunState
resumed r = record r {
  status = requested;
  lease_owner = none;
  lease_expires = none;
  cancellation_requested_at = none;
  error_code = none;
  completed_at = none;
  jobs =
      if contains r.jobs (r.current_checkpoint + 1)
      then r.jobs
      else (r.current_checkpoint + 1) ∷ r.jobs;
}

unfoldable pub resume_investigation :
    InvestigationRunState → Result InvestigationStoreError InvestigationRunState
resume_investigation r = do
  throw_if (not (contains retryable r.status)) not_resumable
  refused (assert_investigation_transition r.status policy_check)
  ok (resumed r)

-- The statuses of an investigation that is not to be executed.
abbrev pub settled_statuses : List InvestigationStatus
settled_statuses =
    approved ∷ rejected ∷ policy_blocked ∷ cancelled ∷ budget_exceeded ∷ security_rejected ∷ []

-- `none` where the lease is another's or the investigation is not to be executed.
unfoldable pub acquire_lease : String → ℕ → ℕ → InvestigationRunState → Option InvestigationRunState
acquire_lease worker lease_seconds now r =
    if (is_free r.lease_owner || ran_out r.lease_expires now || owned_by r.lease_owner worker)
      && not (contains settled_statuses r.status)
    then some (record r {
      lease_owner = some worker;
      lease_expires = some (now + clamp_lease lease_seconds);
      heartbeat_at = some now;
      started_at = coalesce r.started_at now;
    })
    else none

unfoldable pub heartbeat :
    String → ℕ → ℕ → InvestigationRunState → Result InvestigationStoreError InvestigationRunState
heartbeat worker lease_seconds now r = do
  assert_lease worker now r
  ok (record r { lease_expires = some (now + clamp_lease lease_seconds); heartbeat_at = some now })

unfoldable pub checkpoint :
    String
    → ℕ
    → InvestigationStatus
    → InvestigationRunState
    → Result InvestigationStoreError InvestigationRunState
checkpoint worker now stage r = do
  assert_lease worker now r
  refused (assert_investigation_transition r.status stage)
  ok (record r {
    status = stage;
    current_checkpoint = r.current_checkpoint + 1;
    checkpoints =
        record { sequence = r.current_checkpoint + 1; stage = stage; lease_owner = worker }
        ∷ r.checkpoints;
  })

-- The statuses of an investigation that a worker is at.
abbrev pub active_statuses : List InvestigationStatus
active_statuses =
    policy_check ∷ context_building ∷ triage ∷ mapping ∷ hypothesis ∷ validation ∷ security_review
    ∷ plan_composition ∷ critic_review ∷ []

-- `idle` tells whether the row was last updated before the time at which it counts as stale. `none`
-- where the row is not reconciled.
unfoldable pub reconcile_stale : Bool → ℕ → InvestigationRunState → Option InvestigationRunState
reconcile_stale idle now r =
    if ran_out r.lease_expires now && idle && contains active_statuses r.status
    then some (record r {
      status = model_failed;
      error_code = some "STALE_WORKER";
      lease_owner = none;
      lease_expires = none;
      completed_at = some now;
    })
    else none

unfoldable pub fail_investigation :
    String
    → ℕ
    → InvestigationStatus
    → String
    → InvestigationRunState
    → Result InvestigationStoreError InvestigationRunState
fail_investigation worker now status error_code r = do
  assert_lease worker now r
  ok (record r {
    status = status;
    error_code = some error_code;
    completed_at = some now;
    lease_owner = none;
    lease_expires = none;
  })
