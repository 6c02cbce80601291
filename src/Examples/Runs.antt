-- ===== src/Examples/Runs.antt =====
-- One run, its lease, and what workers write to it.
use coder_er.Publication.Lifecycle.{assert_publication_transition}
use coder_er.Base.{
  string_equality, ◌≡◌, refl, ◌≢◌, true, false, String, codes, none, some, contains, ok, err, arith,
}
use coder_er.Publication.Status.{PublicationStatus, publication_status_equality}
use coder_er.Publication.Store.{
  PublicationRunState, lease_lost, claim_publication, claimed, holds_lease, fail_publication,
}
use coder_er.Publication.Store.Workers.{WorkerWrite, materialize, perform}
use coder_er.Publication.Store.Writes.{perform-IsWritten, IsWritten}
use coder_er.Publication.Store.Lease.{claim_publication-exclusive, claim_publication-takeover}
use coder_er.Publication.Failures.{PipelineError, plain_error, classify_publication_failure}
use coder_er.Publication.Failures.Recorded.{failed_statuses, classify_publication_failure-recorded}

abbrev queued_run : PublicationRunState
queued_run = record {
  status = PublicationStatus.commit_materializing;
  version = 3;
  attempt_count = 1;
  base_commit_sha = codes "b0";
  patch_digest = codes "d0";
  lease_owner = some "gone";
  lease_expires = some 50;
  heartbeat_at = none;
  started_at = some 10;
  completed_at = none;
  cancellation_requested = false;
  tree_sha = none;
  commit_sha = none;
  pull_request_number = none;
  pull_request_url = none;
  error_code = none;
  published_commit = none;
  pull_request_record = none;
}

abbrev held_run : PublicationRunState
held_run = claimed "w1" 60 100 queued_run

claim_publication-takeover_example :
    (r' : PublicationRunState) × (claim_publication "w1" 60 100 queued_run ≡ some r')
    × (holds_lease "w1" 100 r' ≡ true)
    × (r'.attempt_count ≡ 2)
    × (r'.status ≡ PublicationStatus.commit_materializing)
claim_publication-takeover_example =
    claim_publication-takeover "w1" 60 100 50 queued_run refl (omega arith) refl

names_differ : ◌≢◌ {A = String} "w1" "w2"
names_differ h = cc ((string_equality.beq_iff "w1" "w2").1 h)

claim_publication-exclusive_example :
    (claim_publication "w2" 60 130 held_run ≡ none)
    × ((w : WorkerWrite) → perform "w2" 130 w held_run ≡ err lease_lost)
unfolding claim_publication
claim_publication-exclusive_example =
    claim_publication-exclusive "w1" "w2" 60 60 100 130 queued_run held_run refl names_differ
      (omega arith)

abbrev commit_write : WorkerWrite
commit_write = materialize (codes "t1") (codes "c1") (codes "td") (codes "md")

abbrev published_run : PublicationRunState
published_run = record held_run {
  status = PublicationStatus.branch_publishing;
  version = 4;
  tree_sha = some (codes "t1");
  commit_sha = some (codes "c1");
  published_commit = some (record {
    base_commit_sha = codes "b0";
    tree_sha = codes "t1";
    commit_sha = codes "c1";
    patch_digest = codes "d0";
    tree_digest = codes "td";
    message_digest = codes "md";
  });
}

perform-IsWritten_example : IsWritten "w1" 120 held_run published_run
unfolding perform assert_publication_transition
perform-IsWritten_example = perform-IsWritten "w1" 120 commit_write held_run published_run refl

abbrev network_error : PipelineError
network_error = plain_error (codes "network unreachable")

classify_publication_failure-recorded_example :
    (r' : PublicationRunState) × (fail_publication "w1" 120
        (classify_publication_failure network_error held_run.status).status
        (classify_publication_failure network_error held_run.status).code
        held_run
      ≡ ok r')
    × (contains failed_statuses r'.status ≡ true)
    × (r'.lease_owner ≡ none)
classify_publication_failure-recorded_example =
    classify_publication_failure-recorded network_error "w1" 120 held_run refl refl refl
