-- ===== src/Recovery/Store.antt =====
-- One recovery run in the store (packages/database/src/recovery-store.ts): its row and the operations
-- of the worker that holds its lease. An operation is a transaction: it returns the run that it
-- leaves, or throws and leaves the run as it was. `now` is the database's clock in seconds; NULL is
-- `none`; the event log and the error message are left out.
pub mod Requests
pub mod Commands
pub mod Refinement
pub mod Books
use coder_er.Base.{
  ℕ, ◌+◌, Bool, true, false, not, ◌&&◌, ◌||◌, String, Option, none, some, List, [], ◌∷◌, any,
  length, contains, ◌==◌, nat_equality, string_equality, if◌then◌else◌, Result, ok, err, ◌>>=◌,
  ◌>>◌, throw_if, Equality,
}
use coder_er.Base.Machine.{InvalidTransition}
use coder_er.Leases.{coalesce, owned_by, runs_after, ran_out, is_free, clamp_lease}
use coder_er.Approvals.{Approval}
use coder_er.Recovery.Status.{
  RecoveryRunStatus, recovery_run_status_equality, requested, awaiting_publication_approval,
  ready_to_publish, published, policy_blocked, cancelled, budget_exceeded, cleanup_failed,
}
use coder_er.Recovery.Lifecycle.{assert_recovery_transition}

pub data PublicationDecision : Type 0 where
  approve reject : PublicationDecision

pub data WorktreeStatus : Type 0 where
  ready removed : WorktreeStatus

pub record Worktree : Type 0 where
  pub status : WorktreeStatus
  pub repository_path_ref : String
  pub relative_path : String
  pub branch_name : String
  pub base_commit_sha : String
  pub created_by_worker : String

pub record Checkpoint : Type 0 where
  pub sequence : ℕ
  pub stage : RecoveryRunStatus
  pub lease_owner : String

pub record PatchRow : Type 0 where
  pub version : ℕ
  pub patch_digest : String

pub record CleanupRecord : Type 0 where
  pub attempt : ℕ
  pub worktree_absent : Bool
  pub branch_deleted : Bool
  pub error_code : Option String

-- The deduplication keys of the jobs that the requests queue: by clock, or by version.
pub data JobKey : Type 0 where
  resume_key revision_key : ℕ → JobKey

pub record RecoveryRunState : Type 0 where
  pub status : RecoveryRunStatus
  pub version : ℕ
  pub current_checkpoint : ℕ
  pub current_patch_version : Option ℕ
  pub revision_comment : Option String
  pub lease_owner : Option String
  pub lease_expires : Option ℕ
  pub heartbeat_at : Option ℕ
  pub started_at : Option ℕ
  pub completed_at : Option ℕ
  pub cancellation_requested_at : Option ℕ
  pub error_code : Option String
  pub checkpoints : List Checkpoint
  pub worktree : Option Worktree
  pub patches : List PatchRow
  pub approvals : List (Approval PublicationDecision)
  pub cleanups : List CleanupRecord
  pub jobs : List JobKey

pub data RecoveryStoreError : Type 0 where
  lease_lost transition_refused not_at_gate duplicate_row version_conflict not_resumable
        revision_refused not_human not_decidable duties_not_separated no_patch :
      RecoveryStoreError

-- Whether `worker` holds a lease that has not run out.
abbrev pub holds_lease : String → ℕ → RecoveryRunState → Bool
holds_lease worker now r = owned_by r.lease_owner worker && runs_after r.lease_expires now

abbrev pub assert_lease : String → ℕ → RecoveryRunState → Result RecoveryStoreError (Unit {0})
assert_lease worker now r = throw_if (not (holds_lease worker now r)) lease_lost

-- The statuses of a run that is not to be executed.
abbrev pub settled_statuses : List RecoveryRunStatus
settled_statuses = published ∷ policy_blocked ∷ cancelled ∷ budget_exceeded ∷ cleanup_failed ∷ []

abbrev pub gate_statuses : List RecoveryRunStatus
gate_statuses = awaiting_publication_approval ∷ ready_to_publish ∷ []

-- `none` where the lease is another's or the run is not to be executed.
unfoldable pub acquire_lease : String → ℕ → ℕ → RecoveryRunState → Option RecoveryRunState
acquire_lease worker lease_seconds now r =
    if (is_free r.lease_owner || ran_out r.lease_expires now || owned_by r.lease_owner worker)
      && not (contains settled_statuses r.status)
    then some (record r {
      lease_owner = some worker;
      lease_expires = some (now + clamp_lease lease_seconds);
      heartbeat_at = some now;
      started_at = coalesce r.started_at now;
    })
    else none

unfoldable pub heartbeat :
    String → ℕ → ℕ → RecoveryRunState → Result RecoveryStoreError RecoveryRunState
heartbeat worker lease_seconds now r = do
  assert_lease worker now r
  ok (record r { heartbeat_at = some now; lease_expires = some (now + clamp_lease lease_seconds) })

unfoldable pub restart_for_retry :
    String → ℕ → RecoveryRunState → Result RecoveryStoreError RecoveryRunState
restart_for_retry worker now r = do
  assert_lease worker now r
  ok (record r { status = requested; error_code = none; version = r.version + 1 })

unfoldable pub release_lease :
    String → ℕ → RecoveryRunState → Result RecoveryStoreError RecoveryRunState
release_lease worker now r = do
  assert_lease worker now r
  throw_if (not (contains gate_statuses r.status)) not_at_gate
  ok (record r {
    lease_owner = none;
    lease_expires = none;
    heartbeat_at = some now;
    version = r.version + 1;
  })

abbrev pub refused :
    Result (InvalidTransition RecoveryRunStatus) (Unit {0}) → Result RecoveryStoreError (Unit {0})
refused (ok u) = ok u
refused (err e) = err transition_refused

-- Whether a unique key of the two tables is taken.
abbrev pub is_numbered : ℕ → List Checkpoint → Bool
is_numbered sequence rows = any (λ c. c.sequence == sequence) rows

abbrev pub is_recorded : PatchRow → List PatchRow → Bool
is_recorded patch rows =
    any (λ p. p.version == patch.version || p.patch_digest == patch.patch_digest) rows

-- The run that a checkpoint leaves.
abbrev pub reached : String → RecoveryRunStatus → RecoveryRunState → RecoveryRunState
reached worker stage r = record r {
  status = stage;
  current_checkpoint = r.current_checkpoint + 1;
  version = r.version + 1;
  checkpoints =
      record { sequence = r.current_checkpoint + 1; stage = stage; lease_owner = worker }
      ∷ r.checkpoints;
}

unfoldable pub checkpoint :
    String → ℕ → RecoveryRunStatus → RecoveryRunState → Result RecoveryStoreError RecoveryRunState
checkpoint worker now stage r = do
  assert_lease worker now r
  refused (assert_recovery_transition r.status stage)
  throw_if (is_numbered (r.current_checkpoint + 1) r.checkpoints) duplicate_row
  ok (reached worker stage r)

unfoldable pub record_worktree :
    String
    → ℕ
    → String
    → String
    → String
    → String
    → RecoveryRunState
    → Result RecoveryStoreError RecoveryRunState
record_worktree worker now path_ref path branch base r = do
  assert_lease worker now r
  ok (record r {
    worktree = some (record {
      status = ready;
      repository_path_ref = path_ref;
      relative_path = path;
      branch_name = branch;
      base_commit_sha = base;
      created_by_worker = worker;
    });
  })

-- The digest is unique among the patches of all runs: `elsewhere` says whether another run has it.
unfoldable pub record_patch :
    String → ℕ → Bool → PatchRow → RecoveryRunState → Result RecoveryStoreError RecoveryRunState
record_patch worker now elsewhere patch r = do
  assert_lease worker now r
  throw_if (elsewhere || is_recorded patch r.patches) duplicate_row
  ok (record r {
    patches = patch ∷ r.patches;
    current_patch_version = some patch.version;
    version = r.version + 1;
  })

unfoldable pub complete :
    String
    → ℕ
    → RecoveryRunStatus
    → Option String
    → RecoveryRunState
    → Result RecoveryStoreError RecoveryRunState
complete worker now status error_code r = do
  assert_lease worker now r
  ok (record r {
    status = status;
    completed_at = some now;
    error_code = error_code;
    lease_owner = none;
    lease_expires = none;
    version = r.version + 1;
  })
