-- ===== src/Recovery/Store/Requests.antt =====
-- What is asked of a recovery run without its lease (packages/database/src/recovery-store.ts): the
-- requests of the API, the publication decision, and the record of a cleanup.
pub mod Decisions
pub mod Ordinary
pub mod Quorum
use coder_er.Base.{
  ℕ, ◌+◌, Bool, true, false, not, ◌&&◌, ◌||◌, String, Option, none, some, List, [], ◌∷◌, any, max,
  ltb, contains, ◌==◌, nat_equality, string_equality, if◌then◌else◌, Result, ok, ◌>>◌, throw_if,
  get_elem?, ◌≡◌, refl, Equality,
}
use coder_er.Base.Finite.{Finite, equality}
use coder_er.Leases.{coalesce}
use coder_er.Approvals.{StoreActorContext, is_human, record_approval, count_approvers}
use coder_er.Recovery.Status.{
  RecoveryRunStatus, recovery_run_status_equality, requested, patch_planning,
  awaiting_publication_approval, ready_to_publish, patch_rejected, security_rejected,
  verification_failed, worktree_failed, model_failed, tool_failed,
}
use coder_er.Recovery.Store.{
  PublicationDecision, approve, reject, RecoveryRunState, RecoveryStoreError, version_conflict,
  not_resumable, revision_refused, not_human, not_decidable, duties_not_separated, no_patch,
  duplicate_row, JobKey, resume_key, revision_key, gate_statuses, Worktree, removed, CleanupRecord,
}

unfoldable pub request_cancellation : ℕ → RecoveryRunState → RecoveryRunState
request_cancellation now r = record r {
  cancellation_requested_at = coalesce r.cancellation_requested_at now;
  version = r.version + 1;
}

-- The same deduplication key.
abbrev pub same_job : JobKey → JobKey → Bool
same_job (resume_key a) (resume_key b) = a == b
same_job (revision_key a) (revision_key b) = a == b
same_job (resume_key a) (revision_key b) = false
same_job (revision_key a) (resume_key b) = false

abbrev pub resumable : List RecoveryRunStatus
resumable =
    patch_rejected ∷ security_rejected ∷ verification_failed ∷ worktree_failed ∷ model_failed
    ∷ tool_failed ∷ []

-- `clock` is `Date.now()`, which the key of the queued job carries.
unfoldable pub resume_recovery : ℕ → RecoveryRunState → Result RecoveryStoreError RecoveryRunState
resume_recovery clock r = do
  throw_if (not (contains resumable r.status)) not_resumable
  ok (record r {
    status = patch_planning;
    cancellation_requested_at = none;
    error_code = none;
    lease_owner = none;
    lease_expires = none;
    version = r.version + 1;
    jobs = if any (same_job (resume_key clock)) r.jobs then r.jobs else resume_key clock ∷ r.jobs;
  })

abbrev pub revisable : List RecoveryRunStatus
revisable =
    awaiting_publication_approval ∷ ready_to_publish ∷ patch_rejected ∷ security_rejected
    ∷ verification_failed ∷ model_failed ∷ tool_failed ∷ worktree_failed ∷ []

-- The run that a revision leaves.
abbrev pub revised : String → RecoveryRunState → RecoveryRunState
revised comment r = record r {
  status = requested;
  revision_comment = some comment;
  cancellation_requested_at = none;
  completed_at = none;
  error_code = none;
  lease_owner = none;
  lease_expires = none;
  heartbeat_at = none;
  version = r.version + 1;
  jobs = revision_key (r.version + 1) ∷ r.jobs;
}

unfoldable pub request_revision :
    ℕ → String → RecoveryRunState → Result RecoveryStoreError RecoveryRunState
request_revision expected_version comment r = do
  throw_if (not (r.version == expected_version)) version_conflict
  throw_if (not (contains revisable r.status)) revision_refused
  throw_if (any (same_job (revision_key (r.version + 1))) r.jobs) duplicate_row
  ok (revised comment r)

abbrev publication_decision_index : PublicationDecision → ℕ
publication_decision_index approve = 0
publication_decision_index reject = 1

pub publication_decision_found :
    (d : PublicationDecision)
    → get_elem? (approve ∷ reject ∷ []) (publication_decision_index d) ≡ some d
publication_decision_found approve = refl
publication_decision_found reject = refl

abbrev publication_decision_finite : Finite PublicationDecision
publication_decision_finite = record {
  index = publication_decision_index;
  members = approve ∷ reject ∷ [];
  found = publication_decision_found;
}

instance abbrev pub publication_decision_equality : Equality PublicationDecision
publication_decision_equality = equality publication_decision_finite

abbrev pub threshold : Option ℕ → ℕ
threshold none = 1
threshold (some required) = max required 1

-- The risks of a treatment plan (packages/contracts/src/index.ts).
pub data RiskLevel : Type 0 where
  low medium high critical : RiskLevel

abbrev pub is_risky : Option RiskLevel → Bool
is_risky (some high) = true
is_risky (some critical) = true
is_risky _ = false

-- What the decision reads of other tables: the approvals that the policy requires, the plan's risk,
-- and the actors that approved the plan.
pub record DecisionContext : Type 0 where
  pub required_publication_approvals : Option ℕ
  pub risk : Option RiskLevel
  pub plan_approvers : List String

-- Whether an approval of the publication must not come from an approver of the plan.
abbrev pub separates_duties : DecisionContext → Bool
separates_duties d = ltb 1 (threshold d.required_publication_approvals) || is_risky d.risk

-- `!publicationRound`, for NULL and for 0.
abbrev pub is_missing : Option ℕ → Bool
is_missing none = true
is_missing (some n) = n == 0

abbrev pub round_of : Option ℕ → ℕ
round_of none = 0
round_of (some n) = n

abbrev pub next_status : PublicationDecision → Bool → RecoveryRunStatus
next_status reject approved = awaiting_publication_approval
next_status approve true = ready_to_publish
next_status approve false = awaiting_publication_approval

-- The run that a decision leaves: the row is kept once, and the approvers of the patch are counted.
abbrev pub decided :
    DecisionContext → StoreActorContext → PublicationDecision → RecoveryRunState → RecoveryRunState
decided d actor decision r =
    let round = round_of r.current_patch_version in
    let rows =
      record_approval (record { round = round; decision = decision; actor_id = actor.actor_id })
        r.approvals in
    let reached =
      not (ltb (count_approvers approve round rows) (threshold d.required_publication_approvals)) in
    record r {
      approvals = rows;
      status = next_status decision (decision == approve && reached);
      version = r.version + 1;
    }

-- Whether the actor may not approve, as one who approved the treatment plan.
abbrev pub mixes_duties : DecisionContext → StoreActorContext → PublicationDecision → Bool
mixes_duties d actor decision =
    decision == approve && separates_duties d && contains d.plan_approvers actor.actor_id

unfoldable pub decide_publication :
    DecisionContext
    → StoreActorContext
    → PublicationDecision
    → ℕ
    → RecoveryRunState
    → Result RecoveryStoreError RecoveryRunState
decide_publication d actor decision expected_version r = do
  throw_if (not (is_human actor)) not_human
  throw_if (not (r.version == expected_version)) version_conflict
  throw_if (not (contains gate_statuses r.status)) not_decidable
  throw_if (mixes_duties d actor decision) duties_not_separated
  throw_if (is_missing r.current_patch_version) no_patch
  ok (decided d actor decision r)

abbrev pub remove_worktree : Option Worktree → Option Worktree
remove_worktree none = none
remove_worktree (some w) = some (record w { status = removed })

-- `COALESCE(MAX("attempt"), 0)`.
abbrev pub last_attempt : List CleanupRecord → ℕ
last_attempt [] = 0
last_attempt (c ∷ cleanups) = max c.attempt (last_attempt cleanups)

-- The worker that calls is not read: no lease is asked for.
unfoldable pub mark_cleanup :
    String → Bool → Bool → Option String → RecoveryRunState → RecoveryRunState
mark_cleanup worker worktree_absent branch_deleted error_code r = record r {
  cleanups =
      record {
        attempt = last_attempt r.cleanups + 1;
        worktree_absent = worktree_absent;
        branch_deleted = branch_deleted;
        error_code = error_code;
      }
      ∷ r.cleanups;
  worktree = if worktree_absent then remove_worktree r.worktree else r.worktree;
}
