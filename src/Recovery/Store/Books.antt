-- ===== src/Recovery/Store/Books.antt =====
-- The numbers that a recovery run keeps: of its checkpoints, its patches and its queued revisions.
use coder_er.Base.{
  ℕ, ◌+◌, ◌≤◌, ◌≡◌, refl, Bool, true, false, not, ==_refl, ◌<◌, length, String, Option, none, some,
  List, [], ◌∷◌, all, any, contains, leb, ◌==◌, ◌||◌, nat_equality, string_equality, Result, ok,
  ◌>>=◌, arith, subst,
}
use coder_er.Leases.{accepted}
use coder_er.Leases.Columns.{accepted-throw_if, accepted->>=, accepted-ok, updated}
use coder_er.Recovery.Status.{requested, RecoveryRunStatus, recovery_run_status_equality}
use coder_er.Recovery.Lifecycle.{assert_recovery_transition}
use coder_er.Recovery.Store.{
  RecoveryRunState, RecoveryStoreError, Checkpoint, PatchRow, JobKey, resume_key, revision_key,
  reached, is_numbered, is_recorded, acquire_lease, heartbeat, restart_for_retry, release_lease,
  checkpoint, record_worktree, record_patch, complete, holds_lease, assert_lease, lease_lost,
  not_at_gate, duplicate_row, version_conflict, revision_refused, not_resumable, gate_statuses,
  refused,
}
use coder_er.Recovery.Store.Requests.{
  request_cancellation, resume_recovery, request_revision, decided, mark_cleanup, revised, same_job,
  resumable, revisable,
}
use coder_er.Recovery.Store.Requests.Decisions.{decide_publication-IsDecided}
use coder_er.Recovery.Store.Commands.{
  WorkerCommand, acquire, beat, restart, release, reach, prepare, patch, finish, RecoveryCommand,
  clean, by_worker, cancel, resume, revise, decide, work, perform,
}

-- The checkpoints are numbered n, n - 1, …, 1, the latest first.
abbrev pub AreNumbered : List Checkpoint → Type 0
AreNumbered [] = Unit
AreNumbered (c ∷ rows) = (c.sequence ≡ length (c ∷ rows)) × AreNumbered rows

abbrev pub latest_version : List PatchRow → Option ℕ
latest_version [] = none
latest_version (p ∷ rows) = some p.version

-- No version and no digest stands twice.
abbrev pub AreUnique : List PatchRow → Type 0
AreUnique [] = Unit
AreUnique (p ∷ rows) = (is_recorded p rows ≡ false) × AreUnique rows

abbrev pub queued_until : ℕ → JobKey → Bool
queued_until version (resume_key clock) = true
queued_until version (revision_key n) = leb n version

pub record IsSound (r : RecoveryRunState) : Type 0 where
  pub counted : r.current_checkpoint ≡ length r.checkpoints
  pub numbered : AreNumbered r.checkpoints
  pub latest : r.current_patch_version ≡ latest_version r.patches
  pub unique : AreUnique r.patches
  pub queued : all (queued_until r.version) r.jobs ≡ true

not_numbered :
    (m : ℕ) (rows : List Checkpoint)
    → AreNumbered rows
    → length rows < m
    → is_numbered m rows ≡ false
not_numbered m [] h more = refl
not_numbered m (c ∷ rows) h more =
    ground (arith, h.0, not_numbered m rows h.1 (omega (arith, more)))

queued_later :
    (n m : ℕ) (jobs : List JobKey)
    → n ≤ m
    → all (queued_until n) jobs ≡ true
    → all (queued_until m) jobs ≡ true
queued_later n m [] h q = refl
queued_later n m (resume_key clock ∷ jobs) h q = queued_later n m jobs h q
queued_later n m (revision_key k ∷ jobs) h q = ground (arith, q, queued_later n m jobs h)

not_queued :
    (n : ℕ) (jobs : List JobKey)
    → all (queued_until n) jobs ≡ true
    → any (same_job (revision_key (n + 1))) jobs ≡ false
not_queued n [] q = refl
not_queued n (resume_key clock ∷ jobs) q = not_queued n jobs q
not_queued n (revision_key k ∷ jobs) q = ground (arith, q, not_queued n jobs)

-- The run that an operation leaves is sound, and its version is not lower.
abbrev pub KeepsBooks : RecoveryRunState → RecoveryRunState → Type 0
KeepsBooks r r' = IsSound r' × (r.version ≤ r'.version)

module _ (r r' : RecoveryRunState) (i : IsSound r) where
  left :
      (s : RecoveryRunState)
      → ◌≡◌ {A = Option RecoveryRunState} (some s) (some r')
      → KeepsBooks r s
      → KeepsBooks r r'
  left s done k = let same : s ≡ r' = cc in subst (λ v. KeepsBooks r v) same k

  -- An operation that leaves the numbered rows alone, and the version or its successor.
  same_books :
      (s : RecoveryRunState)
      → s.current_checkpoint ≡ r.current_checkpoint
      → s.checkpoints ≡ r.checkpoints
      → s.current_patch_version ≡ r.current_patch_version
      → s.patches ≡ r.patches
      → s.jobs ≡ r.jobs
      → r.version ≤ s.version
      → KeepsBooks r s
  same_books s c cs v ps js later = (
    record {
      counted = rw (c, cs) i.counted;
      numbered = rw cs i.numbered;
      latest = rw (v, ps) i.latest;
      unique = rw ps i.unique;
      queued = rw js (queued_later r.version s.version r.jobs later i.queued);
    },
    later,
  )

  module _ (w : String) (now : ℕ) where
    asserted :
        (next : Result RecoveryStoreError RecoveryRunState)
        → accepted (assert_lease w now r >>= λ _. next) ≡ some r'
        → (not (holds_lease w now r) ≡ false) × (accepted next ≡ some r')
    asserted next h = accepted-throw_if (not (holds_lease w now r)) lease_lost next h

    work-KeepsBooks : (c : WorkerCommand) → work w c now r ≡ some r' → KeepsBooks r r'
    unfolding work acquire_lease heartbeat restart_for_retry release_lease checkpoint
        record_worktree record_patch complete mark_cleanup
    work-KeepsBooks (acquire seconds) h =
        let (_, done) = updated _ _ h in
        left _ done (same_books _ refl refl refl refl refl (omega arith))
    work-KeepsBooks (beat seconds) h =
        let (_, done) = asserted _ h in
        left _ done (same_books _ refl refl refl refl refl (omega arith))
    work-KeepsBooks restart h =
        let (_, done) = asserted _ h in
        left _ done (same_books _ refl refl refl refl refl (omega arith))
    work-KeepsBooks release h =
        let (_, checked) = asserted _ h in
        let (_, done) =
          accepted-throw_if (not (contains gate_statuses r.status)) not_at_gate _ checked in
        left _ done (same_books _ refl refl refl refl refl (omega arith))
    work-KeepsBooks (reach stage) h =
        let (_, checked) = asserted _ h in
        let (_, (_, free)) =
          accepted->>= (refused (assert_recovery_transition r.status stage)) _ checked in
        let (_, done) =
          accepted-throw_if (is_numbered (r.current_checkpoint + 1) r.checkpoints) duplicate_row _
            free in
        left _ done (
          record {
            counted = omega (arith, i.counted);
            numbered = (omega (arith, i.counted), i.numbered);
            latest = i.latest;
            unique = i.unique;
            queued = queued_later r.version (r.version + 1) r.jobs (omega arith) i.queued;
          },
          omega arith,
        )
    work-KeepsBooks (prepare path_ref path branch base) h =
        let (_, done) = asserted _ h in
        left _ done (same_books _ refl refl refl refl refl (omega arith))
    work-KeepsBooks (patch elsewhere p) h =
        let (_, checked) = asserted _ h in
        let (taken, done) =
          accepted-throw_if (elsewhere || is_recorded p r.patches) duplicate_row _ checked in
        let fresh : is_recorded p r.patches ≡ false = ground (arith, taken) in
        left _ done (
          record {
            counted = i.counted;
            numbered = i.numbered;
            latest = refl;
            unique = (fresh, i.unique);
            queued = queued_later r.version (r.version + 1) r.jobs (omega arith) i.queued;
          },
          omega arith,
        )
    work-KeepsBooks (finish status code) h =
        let (_, done) = asserted _ h in
        left _ done (same_books _ refl refl refl refl refl (omega arith))
    work-KeepsBooks (clean absent deleted code) h =
        left _ h (same_books _ refl refl refl refl refl (omega arith))

  resume-KeepsBooks : (clock : ℕ) → accepted (resume_recovery clock r) ≡ some r' → KeepsBooks r r'
  unfolding resume_recovery
  resume-KeepsBooks clock h =
      let (_, done) = accepted-throw_if (not (contains resumable r.status)) not_resumable _ h in
      let later = queued_later r.version (r.version + 1) r.jobs (omega arith) i.queued in
      left _ done (
        record {
          counted = i.counted;
          numbered = i.numbered;
          latest = i.latest;
          unique = i.unique;
          queued = ground (arith, later);
        },
        omega arith,
      )

  revise-KeepsBooks :
      (expected : ℕ) (comment : String)
      → accepted (request_revision expected comment r) ≡ some r'
      → KeepsBooks r r'
  unfolding request_revision
  revise-KeepsBooks expected comment h =
      let (_, h1) = accepted-throw_if (not (r.version == expected)) version_conflict _ h in
      let (_, h2) = accepted-throw_if (not (contains revisable r.status)) revision_refused _ h1 in
      let (_, done) =
        accepted-throw_if (any (same_job (revision_key (r.version + 1))) r.jobs) duplicate_row _
          h2 in
      let later = queued_later r.version (r.version + 1) r.jobs (omega arith) i.queued in
      left _ done (
        record {
          counted = i.counted;
          numbered = i.numbered;
          latest = i.latest;
          unique = i.unique;
          queued = ground (arith, later);
        },
        omega arith,
      )

-- An operation that takes effect on a sound run leaves a sound run, with a version that is not lower:
-- its checkpoints are numbered from 1 on without a gap up to the current one, the current patch is
-- the one recorded last, no patch version or digest stands twice, and no revision is queued for a
-- version that is still to come.
pub perform-IsSound :
    (c : RecoveryCommand) (now : ℕ) (r r' : RecoveryRunState)
    → IsSound r
    → perform c now r ≡ some r'
    → IsSound r' × (r.version ≤ r'.version)
unfolding perform request_cancellation
perform-IsSound (by_worker w c) now r r' i h = work-KeepsBooks r r' i w now c h
perform-IsSound cancel now r r' i h =
    left r r' i _ h (same_books r r' i _ refl refl refl refl refl (omega arith))
perform-IsSound (resume clock) now r r' i h = resume-KeepsBooks r r' i clock h
perform-IsSound (revise expected comment) now r r' i h = revise-KeepsBooks r r' i expected comment h
perform-IsSound (decide d actor decision expected) now r r' i h =
    let taken = decide_publication-IsDecided d actor decision expected r r' (accepted-ok _ h) in
    subst (λ v. KeepsBooks r v) taken.result
      (same_books r r' i (decided d actor decision r) refl refl refl refl refl (omega arith))

-- On a sound run the unique keys of the checkpoints and of the queued revisions stop nobody: a
-- checkpoint succeeds under a live lease to every status that the transition table permits, is then
-- the current one and sets the status; a revision with the current version succeeds from every status
-- that may be revised, and requests the run anew.
pub checkpoint-succeeds :
    (w comment : String) (now : ℕ) (stage : RecoveryRunStatus) (r : RecoveryRunState)
    → IsSound r
    → (holds_lease w now r ≡ true
        → assert_recovery_transition r.status stage ≡ ok tt
        → (r' : RecoveryRunState) × ((checkpoint w now stage r ≡ ok r')
            × ((r'.status ≡ stage) × (r'.current_checkpoint ≡ length r'.checkpoints))))
      × (contains revisable r.status ≡ true
          → (r' : RecoveryRunState) × ((request_revision r.version comment r ≡ ok r')
              × (r'.status ≡ requested)))
unfolding checkpoint request_revision
checkpoint-succeeds w comment now stage r i =
    let fresh : is_numbered (r.current_checkpoint + 1) r.checkpoints ≡ false =
      not_numbered (r.current_checkpoint + 1) r.checkpoints i.numbered (omega (arith, i.counted)) in
    let unqueued : any (same_job (revision_key (r.version + 1))) r.jobs ≡ false =
      not_queued r.version r.jobs i.queued in
    (
      λ mine permitted.
          (reached w stage r, (rw (mine, permitted, fresh) refl, (refl, omega (arith, i.counted)))),
      λ allowed. (revised comment r, (rw (==_refl r.version, allowed, unqueued) refl, refl)),
    )
