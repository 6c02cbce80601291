-- ===== src/Publication/Store/Workers.antt =====
-- What a worker may write to its run, and the lease that every write asks for.
use coder_er.Base.{
  ℕ, ◌≡◌, refl, false, String, Text, nat_equality, string_equality, list_equality, Result, ok, err,
}
use coder_er.Publication.Status.{PublicationStatus, publication_status_equality}
use coder_er.Publication.Bundle.{FailureCode}
use coder_er.Publication.Store.{
  PublicationRunState, StoreError, lease_lost, holds_lease, heartbeat, release_lease,
  advance_publication, record_materialization, record_pull_request, fail_publication,
}

-- The writes that a worker makes to the run that it has claimed, with their arguments.
pub data WorkerWrite : Type 0 where
  beat : ℕ → WorkerWrite
  release : WorkerWrite
  advance : PublicationStatus → WorkerWrite
  materialize : Text → Text → Text → Text → WorkerWrite
  open_pull_request : ℕ → Text → Text → WorkerWrite
  fail : PublicationStatus → FailureCode → WorkerWrite

-- The run that a heartbeat leaves.
abbrev pub run_of :
    {A : Type 0}
    → Result StoreError (A × PublicationRunState)
    → Result StoreError PublicationRunState
run_of (ok (a, r)) = ok r
run_of (err e) = err e

unfoldable pub perform :
    String → ℕ → WorkerWrite → PublicationRunState → Result StoreError PublicationRunState
unfolding heartbeat release_lease advance_publication record_materialization record_pull_request
    fail_publication
perform worker now (beat seconds) r = run_of (heartbeat worker seconds now r)
perform worker now release r = release_lease worker now r
perform worker now (advance to) r = advance_publication worker now to r
perform worker now (materialize tree commit tree_digest message_digest) r =
    record_materialization worker now tree commit tree_digest message_digest r
perform worker now (open_pull_request number url head) r =
    record_pull_request worker now number url head r
perform worker now (fail status code) r = fail_publication worker now status code r

-- No write succeeds without a lease of the writing worker that has not run out: it throws that the
-- lease is lost.
pub perform-lease_lost :
    (worker : String) (now : ℕ) (w : WorkerWrite) (r : PublicationRunState)
    → holds_lease worker now r ≡ false
    → perform worker now w r ≡ err lease_lost
unfolding perform heartbeat release_lease advance_publication record_materialization
    record_pull_request fail_publication
perform-lease_lost worker now (beat seconds) r h = rw h refl
perform-lease_lost worker now release r h = rw h refl
perform-lease_lost worker now (advance to) r h = rw h refl
perform-lease_lost worker now (materialize a b c d) r h = rw h refl
perform-lease_lost worker now (open_pull_request a b c) r h = rw h refl
perform-lease_lost worker now (fail status code) r h = rw h refl
