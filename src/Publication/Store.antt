-- ===== src/Publication/Store.antt =====
-- One publication run in the store (packages/database/src/publication-store.ts). An operation is a
-- transaction: it returns the run that it leaves, or throws and leaves the run as it was. `now` is
-- the database's clock in seconds; NULL is `none`; the event log is left out.
pub mod Workers
pub mod Writes
pub mod Lease
use coder_er.Base.{
  ℕ, ◌+◌, Bool, true, false, not, ◌&&◌, ◌||◌, String, Option, none, some, List, [], ◌∷◌, Text, ltb,
  min, max, contains, ◌==◌, nat_equality, string_equality, list_equality, if◌then◌else◌, Result, ok,
  err, ◌>>=◌, ◌>>◌, throw_if,
}
use coder_er.Base.Machine.{InvalidTransition}
use coder_er.Leases.{coalesce, owned_by, runs_after, ran_out, is_free, clamp_lease}
use coder_er.Publication.Status.{
  PublicationStatus, publication_status_equality, publication_requested, policy_check,
  commit_materializing, branch_publishing, draft_pr_creating, ci_monitoring, push_failed,
  pr_creation_failed,
}
use coder_er.Publication.Lifecycle.{assert_publication_transition, is_terminal_publication_status}
use coder_er.Publication.Bundle.{FailureCode}

pub record PublishedCommit : Type 0 where
  pub base_commit_sha : Text
  pub tree_sha : Text
  pub commit_sha : Text
  pub patch_digest : Text
  pub tree_digest : Text
  pub message_digest : Text

pub record PublicationRunState : Type 0 where
  pub status : PublicationStatus
  pub version : ℕ
  pub attempt_count : ℕ
  pub base_commit_sha : Text
  pub patch_digest : Text
  pub lease_owner : Option String
  pub lease_expires : Option ℕ
  pub heartbeat_at : Option ℕ
  pub started_at : Option ℕ
  pub completed_at : Option ℕ
  pub cancellation_requested : Bool
  pub tree_sha : Option Text
  pub commit_sha : Option Text
  pub pull_request_number : Option ℕ
  pub pull_request_url : Option Text
  pub error_code : Option FailureCode
  pub published_commit : Option PublishedCommit
  pub pull_request_record : Option ℕ

pub data StoreError : Type 0 where
  version_conflict lease_lost transition_refused commit_differs pull_request_differs : StoreError

abbrev pub executable_publication_statuses : List PublicationStatus
executable_publication_statuses =
    publication_requested ∷ policy_check ∷ commit_materializing ∷ branch_publishing
    ∷ draft_pr_creating ∷ push_failed ∷ pr_creation_failed ∷ []

-- Whether `worker` holds a lease that has not run out.
abbrev pub holds_lease : String → ℕ → PublicationRunState → Bool
holds_lease worker now r = owned_by r.lease_owner worker && runs_after r.lease_expires now

unfoldable pub transition :
    ℕ → PublicationStatus → PublicationRunState → Result StoreError PublicationRunState
transition expected_version status r =
    if r.version == expected_version
    then ok (record r { status = status; version = r.version + 1 })
    else err version_conflict

abbrev pub claimed : String → ℕ → ℕ → PublicationRunState → PublicationRunState
claimed worker lease_seconds now r = record r {
  lease_owner = some worker;
  lease_expires = some (now + clamp_lease lease_seconds);
  heartbeat_at = some now;
  started_at = coalesce r.started_at now;
  attempt_count = r.attempt_count + 1;
}

-- `none` where the lease is another's or the run is not to be executed.
unfoldable pub claim_publication : String → ℕ → ℕ → PublicationRunState → Option PublicationRunState
claim_publication worker lease_seconds now r =
    if (is_free r.lease_owner || ran_out r.lease_expires now || owned_by r.lease_owner worker)
      && contains executable_publication_statuses r.status
    then some (claimed worker lease_seconds now r)
    else none

unfoldable pub heartbeat :
    String → ℕ → ℕ → PublicationRunState → Result StoreError (Bool × PublicationRunState)
heartbeat worker lease_seconds now r =
    if holds_lease worker now r
    then ok (
      r.cancellation_requested,
      record r { heartbeat_at = some now; lease_expires = some (now + clamp_lease lease_seconds) },
    )
    else err lease_lost

abbrev pub assert_lease : String → ℕ → PublicationRunState → Result StoreError (Unit {0})
assert_lease worker now r = throw_if (not (holds_lease worker now r)) lease_lost

unfoldable pub release_lease :
    String → ℕ → PublicationRunState → Result StoreError PublicationRunState
release_lease worker now r = do
  assert_lease worker now r
  ok (record r {
    lease_owner = none;
    lease_expires = none;
    heartbeat_at = some now;
    version = r.version + 1;
  })

abbrev pub refused :
    Result (InvalidTransition PublicationStatus) (Unit {0}) → Result StoreError (Unit {0})
refused (ok u) = ok u
refused (err e) = err transition_refused

-- `if (current.status !== to) assertPublicationTransition(current.status, to)`.
unfoldable pub check_change : PublicationStatus → PublicationStatus → Result StoreError (Unit {0})
check_change from to = if from == to then ok tt else refused (assert_publication_transition from to)

unfoldable pub advance_publication :
    String → ℕ → PublicationStatus → PublicationRunState → Result StoreError PublicationRunState
unfolding check_change
advance_publication worker now to r = do
  assert_lease worker now r
  check_change r.status to
  ok (if r.status == to then r else record r { status = to; version = r.version + 1 })

-- The row is inserted once; a later call must name the same commit and tree.
keep_commit : Option PublishedCommit → PublishedCommit → Result StoreError PublishedCommit
keep_commit none new = ok new
keep_commit (some old) new =
    if not (old.commit_sha == new.commit_sha) || not (old.tree_sha == new.tree_sha)
    then err commit_differs
    else ok old

unfoldable pub record_materialization :
    String
    → ℕ
    → Text
    → Text
    → Text
    → Text
    → PublicationRunState
    → Result StoreError PublicationRunState
unfolding check_change keep_commit
record_materialization worker now tree_sha commit_sha tree_digest message_digest r = do
  assert_lease worker now r
  check_change r.status branch_publishing
  kept ← keep_commit r.published_commit (record {
    base_commit_sha = r.base_commit_sha;
    tree_sha = tree_sha;
    commit_sha = commit_sha;
    patch_digest = r.patch_digest;
    tree_digest = tree_digest;
    message_digest = message_digest;
  })
  ok (record r {
    published_commit = some kept;
    status = branch_publishing;
    tree_sha = some tree_sha;
    commit_sha = some commit_sha;
    version = r.version + 1;
  })

keep_pull_request : Option ℕ → ℕ → Result StoreError ℕ
keep_pull_request none number = ok number
keep_pull_request (some old) number = if old == number then ok old else err pull_request_differs

unfoldable pub record_pull_request :
    String → ℕ → ℕ → Text → Text → PublicationRunState → Result StoreError PublicationRunState
unfolding check_change keep_pull_request
record_pull_request worker now number url head_sha r = do
  assert_lease worker now r
  check_change r.status ci_monitoring
  kept ← keep_pull_request r.pull_request_record number
  ok (record r {
    pull_request_record = some kept;
    status = ci_monitoring;
    pull_request_number = some number;
    pull_request_url = some url;
    commit_sha = coalesce r.commit_sha head_sha;
    lease_owner = none;
    lease_expires = none;
    heartbeat_at = some now;
    version = r.version + 1;
  })

abbrev pub failed : ℕ → PublicationStatus → FailureCode → PublicationRunState → PublicationRunState
failed now status code r = record r {
  status = status;
  error_code = some code;
  completed_at = if is_terminal_publication_status status then some now else r.completed_at;
  lease_owner = none;
  lease_expires = none;
  version = r.version + 1;
}

unfoldable pub fail_publication :
    String
    → ℕ
    → PublicationStatus
    → FailureCode
    → PublicationRunState
    → Result StoreError PublicationRunState
unfolding check_change
fail_publication worker now status code r = do
  assert_lease worker now r
  check_change r.status status
  ok (failed now status code r)
