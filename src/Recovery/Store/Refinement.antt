-- ===== src/Recovery/Store/Refinement.antt =====
-- The operations on a recovery run follow the lease protocol, and so exclude one another.
use coder_er.Base.{
  List, All, ℕ, ◌+◌, ◌≡◌, refl, true, String, Option, some, Result, contains, any, ap, ◌==◌, ◌||◌,
  nat_equality, not, &&_parts, ◌>>=◌, arith,
}
use coder_er.Leases.{
  lasts, Lease, free, held, is_live, LeaseAction, clear, leave, lease_step, accepted, clamp_lease,
}
use coder_er.Leases.Columns.{
  asserted_live, lease_left, accepted-ok, accepted-throw_if, accepted->>=, updated, renewed_columns,
  takeable_columns,
}
use coder_er.Leases.Histories.{LeasedStore, AllowsOnly, IsBetween, attempt-AllowsOnly}
use coder_er.Recovery.Status.{recovery_run_status_equality}
use coder_er.Recovery.Lifecycle.{assert_recovery_transition}
use coder_er.Recovery.Store.{
  RecoveryRunState, RecoveryStoreError, acquire_lease, heartbeat, restart_for_retry, release_lease,
  checkpoint, record_worktree, record_patch, complete, assert_lease, gate_statuses, is_numbered,
  is_recorded, refused, version_conflict, revision_refused, not_resumable, revision_key, lease_lost,
  not_at_gate, duplicate_row,
}
use coder_er.Recovery.Store.Requests.Decisions.{decide_publication-IsDecided}
use coder_er.Recovery.Store.Requests.{
  decided, resumable, revisable, same_job, request_cancellation, resume_recovery, request_revision,
  mark_cleanup,
}
use coder_er.Recovery.Store.Commands.{
  WorkerCommand, acquire, beat, restart, release, reach, prepare, patch, finish, RecoveryCommand,
  clean, by_worker, cancel, resume, revise, decide, work, perform, worker_action, action, lease,
}

-- The protocol makes a step `act` from the lease `l` to the lease of `r'`.
abbrev pub Steps : ℕ → Lease → RecoveryRunState → LeaseAction → Type 0
Steps now l r' act = (l' : Lease) × ((lease_step act now l ≡ some l') × (lease r' ≡ some l'))

module _ (w : String) (now : ℕ) (r r' : RecoveryRunState) (l : Lease) where
  -- What an operation that returns tells of the lease that it asserts.
  leased :
      (next : Result RecoveryStoreError RecoveryRunState)
      → lease r ≡ some l
      → accepted (assert_lease w now r >>= λ _. next) ≡ some r'
      → (is_live w now l ≡ true) × (accepted next ≡ some r')
  leased next e h = asserted_live w now l r.lease_owner r.lease_expires lease_lost next e h

  work_refines :
      (c : WorkerCommand)
      → lease r ≡ some l
      → work w c now r ≡ some r'
      → Steps now l r' (worker_action w c)
  unfolding work lease_step acquire_lease heartbeat restart_for_retry release_lease checkpoint
      record_worktree record_patch complete mark_cleanup
  work_refines (acquire seconds) e h =
      let (found, done) = updated _ _ h in
      let (free_or_own, _) = &&_parts _ _ found in
      let mine = takeable_columns w now l r.lease_owner r.lease_expires e free_or_own in
      (held w (now + clamp_lease seconds), (rw mine refl, lease_left lease _ _ _ done refl))
  work_refines (beat seconds) e h =
      let (alive, done) = leased _ e h in
      (
        held w (now + clamp_lease seconds),
        (
          rw alive refl,
          lease_left lease _ _ _ done
              (renewed_columns w now l r.lease_owner r.lease_expires _ e alive),
        ),
      )
  work_refines restart e h =
      let (alive, done) = leased _ e h in (l, (rw alive refl, lease_left lease _ _ l done e))
  work_refines release e h =
      let (alive, checked) = leased _ e h in
      let (_, done) =
        accepted-throw_if (not (contains gate_statuses r.status)) not_at_gate _ checked in
      (free, (rw alive refl, lease_left lease _ _ free done refl))
  work_refines (reach stage) e h =
      let (alive, checked) = leased _ e h in
      let (_, (_, fresh)) =
        accepted->>= (refused (assert_recovery_transition r.status stage)) _ checked in
      let (_, done) =
        accepted-throw_if (is_numbered (r.current_checkpoint + 1) r.checkpoints) duplicate_row _
          fresh in
      (l, (rw alive refl, lease_left lease _ _ l done e))
  work_refines (prepare path_ref path branch base) e h =
      let (alive, done) = leased _ e h in (l, (rw alive refl, lease_left lease _ _ l done e))
  work_refines (patch elsewhere p) e h =
      let (alive, checked) = leased _ e h in
      let (_, done) =
        accepted-throw_if (elsewhere || is_recorded p r.patches) duplicate_row _ checked in
      (l, (rw alive refl, lease_left lease _ _ l done e))
  work_refines (finish status code) e h =
      let (alive, done) = leased _ e h in
      (free, (rw alive refl, lease_left lease _ _ free done refl))
  work_refines (clean absent deleted code) e h = (l, (refl, lease_left lease _ _ l h e))

module _ (now : ℕ) (r r' : RecoveryRunState) (l : Lease) where
  -- A request that returns changed the run to `s`, whose lease is told.
  requested_refines :
      (act : LeaseAction) (s : RecoveryRunState) (l' : Lease)
      → ◌≡◌ {A = Option RecoveryRunState} (some s) (some r')
      → lease_step act now l ≡ some l'
      → lease s ≡ some l'
      → Steps now l r' act
  requested_refines act s l' done stepped e = (l', (stepped, lease_left lease s r' l' done e))

  revision_refines :
      (expected : ℕ) (comment : String)
      → accepted (request_revision expected comment r) ≡ some r'
      → Steps now l r' clear
  unfolding request_revision lease_step
  revision_refines expected comment h =
      let (_, h1) = accepted-throw_if (not (r.version == expected)) version_conflict _ h in
      let (_, h2) = accepted-throw_if (not (contains revisable r.status)) revision_refused _ h1 in
      let (_, h3) =
        accepted-throw_if (any (same_job (revision_key (r.version + 1))) r.jobs) duplicate_row _
          h2 in
      requested_refines clear _ free h3 refl refl

  resume_refines : (clock : ℕ) → accepted (resume_recovery clock r) ≡ some r' → Steps now l r' clear
  unfolding resume_recovery lease_step
  resume_refines clock h =
      let (_, h1) = accepted-throw_if (not (contains resumable r.status)) not_resumable _ h in
      requested_refines clear _ free h1 refl refl

-- An operation on a recovery run that takes effect, on a run whose two lease columns are both set or
-- both NULL, does to the lease what the lease protocol allows for it: a worker takes a lease that is
-- free, its own or run out, and renews it, writes under it or gives it up only while it is its own
-- and has not run out, and the record of a cleanup, which asks for no lease, leaves it as it is; the two columns of the run that is left are again both set or both NULL.
pub perform-refines :
    (c : RecoveryCommand) (now : ℕ) (r r' : RecoveryRunState) (l : Lease)
    → lease r ≡ some l
    → perform c now r ≡ some r'
    → (l' : Lease) × ((lease_step (action c) now l ≡ some l') × (lease r' ≡ some l'))
unfolding perform lease_step request_cancellation
perform-refines (by_worker w c) now r r' l e h = work_refines w now r r' l c e h
perform-refines cancel now r r' l e h = requested_refines now r r' l leave _ l h refl e
perform-refines (resume clock) now r r' l e h = resume_refines now r r' l clock h
perform-refines (revise expected comment) now r r' l e h =
    revision_refines now r r' l expected comment h
perform-refines (decide d actor decision expected) now r r' l e h =
    let taken = decide_publication-IsDecided d actor decision expected r r' (accepted-ok _ h) in
    requested_refines now r r' l leave (decided d actor decision r) l (ap some taken.result) refl e

long_worker_action : (w : String) (c : WorkerCommand) → lasts 15 (worker_action w c) ≡ true
long_worker_action w (acquire seconds) = ground arith
long_worker_action w (beat seconds) = ground arith
long_worker_action w restart = refl
long_worker_action w release = refl
long_worker_action w (reach stage) = refl
long_worker_action w (prepare path_ref path branch base) = refl
long_worker_action w (patch elsewhere p) = refl
long_worker_action w (finish status code) = refl
long_worker_action w (clean absent deleted code) = refl

pub long_action : (c : RecoveryCommand) → lasts 15 (action c) ≡ true
long_action (by_worker w c) = long_worker_action w c
long_action cancel = refl
long_action (resume clock) = refl
long_action (revise expected comment) = refl
long_action (decide d actor decision expected) = refl

-- Recovery runs as a client of the lease protocol. A lease is for 15 seconds at least.
abbrev pub recovery_runs : LeasedStore RecoveryRunState RecoveryCommand 15
recovery_runs = record {
  step = perform;
  lease = lease;
  action = action;
  long_enough = long_action;
  refines = perform-refines;
}

-- When a worker has acquired the lease of a recovery run, then in the 15 seconds that follow, of the
-- operations that any workers and users try in any order, as long as none of them is a release, a
-- completion, a resumption or a revision, each by which another worker would claim the lease or that
-- asks for the lease of another worker is refused. The record of a cleanup asks for no lease.
pub acquire_lease-exclusive :
    (a : String) (seconds now : ℕ) (r r' : RecoveryRunState) (history : List (ℕ × RecoveryCommand))
    → acquire_lease a seconds now r ≡ some r'
    → All (IsBetween recovery_runs (now + 15)) history
    → AllowsOnly recovery_runs a history r'
unfolding acquire_lease
acquire_lease-exclusive a seconds now r r' history h between =
    let (_, done) = updated _ _ h in
    attempt-AllowsOnly recovery_runs a (now + 15) (now + clamp_lease seconds) history r'
      (lease_left lease _ r' (held a (now + clamp_lease seconds)) done refl) (ground arith) between
