-- ===== src/Publication/Store/Writes.antt =====
-- What the lease holder's writes do to a run: the lease, the status changes, the commit.
use coder_er.Base.{
  ◌>>=◌, subst, ◌∙◌, >>=-eq-ok, ℕ, ◌+◌, ◌≤◌, ◌≡◌, refl, ◌⊎◌, inl, Bool, true, false, String, Option,
  none, some, Text, arith, nat_equality, string_equality, list_equality, Result, ok, err,
  if◌then◌else◌, ap,
}
use coder_er.Leases.{clamp_lease}
use coder_er.Publication.Status.{
  ci_monitoring, branch_publishing, PublicationStatus, publication_status_equality,
}
use coder_er.Publication.Lifecycle.{assert_publication_transition}
use coder_er.Publication.Bundle.{FailureCode}
use coder_er.Publication.Store.{
  refused, assert_lease, InvalidTransition, PublishedCommit, PublicationRunState, StoreError,
  lease_lost, check_change, keep_commit, keep_pull_request, holds_lease, heartbeat, release_lease,
  advance_publication, record_materialization, record_pull_request, fail_publication,
}
use coder_er.Publication.Store.Workers.{
  WorkerWrite, beat, release, advance, materialize, open_pull_request, fail, run_of, perform,
}

-- The status stays, or the table permits its change.
abbrev pub IsPermitted : PublicationStatus → PublicationStatus → Type 0
IsPermitted from to = (to ≡ from) ⊎ (assert_publication_transition from to ≡ ok tt)

refused-ok :
    (m : Result (InvalidTransition PublicationStatus) (Unit {0})) (u : Unit {0})
    → refused m ≡ ok u
    → m ≡ ok tt
refused-ok (ok v) u h = refl
refused-ok (err e) u h = cc

check_change-IsPermitted :
    (from to : PublicationStatus) (u : Unit {0}) → check_change from to ≡ ok u → IsPermitted from to
unfolding check_change
check_change-IsPermitted from to u h = ground (
  arith,
  h,
  publication_status_equality.beq_iff from to,
  refused-ok (assert_publication_transition from to) u,
)

keep_commit-same :
    (old new kept : PublishedCommit) → keep_commit (some old) new ≡ ok kept → kept ≡ old
unfolding keep_commit
keep_commit-same old new kept h = ground (arith, h)

keep_commit-kept :
    (found : Option PublishedCommit) (old new kept : PublishedCommit)
    → found ≡ some old
    → keep_commit found new ≡ ok kept
    → kept ≡ old
keep_commit-kept none old new kept e h = cc
keep_commit-kept (some c) old new kept e h =
    let same : c ≡ old = cc in keep_commit-same c new kept h ∙ same

-- What a successful write says of the run before and after.
pub record IsWritten (worker : String) (now : ℕ) (r r' : PublicationRunState) : Type 0 where
  pub lease_held : holds_lease worker now r ≡ true
  pub permitted : IsPermitted r.status r'.status
  pub version_kept : r.version ≤ r'.version
  pub commit_kept :
      (c : PublishedCommit) → r.published_commit ≡ some c → r'.published_commit ≡ some c

module _ (worker : String) (now : ℕ) (r r' : PublicationRunState) where
  leased :
      (k : Result StoreError PublicationRunState)
      → (assert_lease worker now r >>= λ _. k) ≡ ok r'
      → (holds_lease worker now r ≡ true) × (k ≡ ok r')
  leased k h =
      let (u, passed, rest) = >>=-eq-ok (assert_lease worker now r) (λ _. k) h in
      (ground (arith, passed), rest)

  changed :
      (to : PublicationStatus) (k : Result StoreError PublicationRunState)
      → (check_change r.status to >>= λ _. k) ≡ ok r'
      → IsPermitted r.status to × (k ≡ ok r')
  changed to k h =
      let (u, checked, rest) = >>=-eq-ok (check_change r.status to) (λ _. k) h in
      (check_change-IsPermitted r.status to u checked, rest)

  written :
      (s : PublicationRunState)
      → ◌≡◌ {A = Result StoreError PublicationRunState} (ok s) (ok r')
      → IsWritten worker now r s
      → IsWritten worker now r r'
  written s h w = let same : s ≡ r' = cc in subst (λ v. IsWritten worker now r v) same w

  run_of-guarded :
      (held asked : Bool) (s : PublicationRunState)
      → run_of (if held then ok (asked, s) else err lease_lost) ≡ ok r'
      → (held ≡ true) × ◌≡◌ {A = Result StoreError PublicationRunState} (ok s) (ok r')
  run_of-guarded true asked s h = (refl, h)
  run_of-guarded false asked s h = cc

  beat-IsWritten :
      (seconds : ℕ) → run_of (heartbeat worker seconds now r) ≡ ok r' → IsWritten worker now r r'
  unfolding heartbeat
  beat-IsWritten seconds h =
      let next = record r {
        heartbeat_at = some now;
        lease_expires = some (now + clamp_lease seconds);
      } in
      let (held, done) =
        run_of-guarded (holds_lease worker now r) r.cancellation_requested next h in
      written next done (record {
        lease_held = held;
        permitted = inl refl;
        version_kept = omega arith;
        commit_kept = λ c e. e;
      })

  release-IsWritten : release_lease worker now r ≡ ok r' → IsWritten worker now r r'
  unfolding release_lease
  release-IsWritten h =
      let (held, done) = leased _ h in
      written _ done (record {
        lease_held = held;
        permitted = inl refl;
        version_kept = omega arith;
        commit_kept = λ c e. e;
      })

  advance-IsWritten :
      (to : PublicationStatus)
      → advance_publication worker now to r ≡ ok r'
      → IsWritten worker now r r'
  unfolding advance_publication
  advance-IsWritten to h =
      let (held, rest) = leased _ h in
      let (allowed, done) = changed to _ rest in
      written _ done (record {
        lease_held = held;
        permitted = ground (arith, allowed, publication_status_equality.beq_iff r.status to);
        version_kept = ground arith;
        commit_kept = λ c e. ground (arith, e);
      })

  materialize-IsWritten :
      (tree commit tree_digest message_digest : Text)
      → record_materialization worker now tree commit tree_digest message_digest r ≡ ok r'
      → IsWritten worker now r r'
  unfolding record_materialization
  materialize-IsWritten tree commit tree_digest message_digest h =
      let (held, rest) = leased _ h in
      let (allowed, next) = changed branch_publishing _ rest in
      let (kept, found, done) = >>=-eq-ok (keep_commit r.published_commit _) _ next in
      written _ done (record {
        lease_held = held;
        permitted = allowed;
        version_kept = omega arith;
        commit_kept = λ c e. ap some (keep_commit-kept r.published_commit c _ kept e found);
      })

  pull_request-IsWritten :
      (number : ℕ) (url head : Text)
      → record_pull_request worker now number url head r ≡ ok r'
      → IsWritten worker now r r'
  unfolding record_pull_request
  pull_request-IsWritten number url head h =
      let (held, rest) = leased _ h in
      let (allowed, next) = changed ci_monitoring _ rest in
      let (kept, found, done) = >>=-eq-ok (keep_pull_request r.pull_request_record number) _ next in
      written _ done (record {
        lease_held = held;
        permitted = allowed;
        version_kept = omega arith;
        commit_kept = λ c e. e;
      })

  fail-IsWritten :
      (status : PublicationStatus) (code : FailureCode)
      → fail_publication worker now status code r ≡ ok r'
      → IsWritten worker now r r'
  unfolding fail_publication
  fail-IsWritten status code h =
      let (held, rest) = leased _ h in
      let (allowed, done) = changed status _ rest in
      written _ done (record {
        lease_held = held;
        permitted = allowed;
        version_kept = omega arith;
        commit_kept = λ c e. e;
      })

-- A write that succeeds was made under a live lease of its worker, changes the status only as the
-- publication table permits, does not lower the version, and keeps the commit that is recorded.
pub perform-IsWritten :
    (worker : String) (now : ℕ) (w : WorkerWrite) (r r' : PublicationRunState)
    → perform worker now w r ≡ ok r'
    → IsWritten worker now r r'
unfolding perform
perform-IsWritten worker now (beat seconds) r r' h = beat-IsWritten worker now r r' seconds h
perform-IsWritten worker now release r r' h = release-IsWritten worker now r r' h
perform-IsWritten worker now (advance to) r r' h = advance-IsWritten worker now r r' to h
perform-IsWritten worker now (materialize a b c d) r r' h =
    materialize-IsWritten worker now r r' a b c d h
perform-IsWritten worker now (open_pull_request a b c) r r' h =
    pull_request-IsWritten worker now r r' a b c h
perform-IsWritten worker now (fail status code) r r' h =
    fail-IsWritten worker now r r' status code h
