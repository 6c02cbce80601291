-- ===== src/Recovery/Store/Requests/Quorum.antt =====
-- What it takes to release a recovery for publication, whatever the commands between the decisions.
use coder_er.Base.{
  false, contains, Option, ℕ, ◌+◌, ◌≤◌, ◌≡◌, ◌∙◌, refl, Bool, true, not, ◌&&◌, String, none, some,
  List, [], ◌∷◌, any, all, length, ◌==◌, nat_equality, string_equality, arith, ==_refl, ltb,
  Option-cases, ap, subst, inl, inr, All,
}
use coder_er.Leases.{accepted}
use coder_er.Leases.Columns.{accepted-ok, accepted-throw_if, accepted->>=, updated}
use coder_er.Approvals.{StoreActorContext, approvers}
use coder_er.Approvals.Counting.{AllDifferent, approvers-AllDifferent, approvers-record_approval}
use coder_er.Recovery.Status.{
  awaiting_publication_approval, ready_to_publish, recovery_run_status_equality,
}
use coder_er.Recovery.Lifecycle.{assert_recovery_transition}
use coder_er.Recovery.Store.{
  PublicationDecision, approve, reject, RecoveryRunState, acquire_lease, heartbeat,
  restart_for_retry, release_lease, checkpoint, record_worktree, record_patch, complete,
  holds_lease, lease_lost, not_at_gate, duplicate_row, version_conflict, revision_refused,
  not_resumable, gate_statuses, refused, is_numbered, revision_key,
}
use coder_er.Recovery.Store.Requests.{
  separates_duties, DecisionContext, decide_publication, decided, threshold,
  publication_decision_equality, round_of, next_status, request_cancellation, resume_recovery,
  request_revision, mark_cleanup, resumable, revisable, same_job,
}
use coder_er.Recovery.Store.Requests.Decisions.{IsDecided, decide_publication-IsDecided}
use coder_er.Recovery.Store.Commands.{
  WorkerCommand, acquire, beat, restart, release, reach, prepare, patch, finish, clean,
  RecoveryCommand, by_worker, cancel, resume, revise, decide, work, perform,
}
use coder_er.Recovery.Store.Requests.Ordinary.{
  run_all, attempt, may_approve, is_proper, has_approved, IsModest, IsOrdinary,
}

module _ (d : DecisionContext) where
  separated :
      (name : String)
      → (separates_duties d && contains d.plan_approvers name) ≡ false
      → may_approve d name ≡ true
  separated name h = ground (arith, h)

  record Holds (q : String → Bool) (k : ℕ) (r : RecoveryRunState) : Type 0 where
    patched : r.current_patch_version ≡ some k
    proper : all q (approvers approve k r.approvals) ≡ true
    enough :
        r.status ≡ ready_to_publish
        → threshold d.required_publication_approvals ≤ length (approvers approve k r.approvals)

  ready_reached :
      (decision : PublicationDecision) (count required : ℕ)
      → next_status decision (decision == approve && not (ltb count required)) ≡ ready_to_publish
      → required ≤ count
  ready_reached approve count required h = ground (arith, h)
  ready_reached reject count required h = cc

  decided-Holds :
      (q : String → Bool) (k : ℕ) (actor : StoreActorContext) (decision : PublicationDecision)
      (expected : ℕ) (r r' : RecoveryRunState)
      → IsDecided d actor decision expected r r'
      → (is_proper d actor.actor_id (decide d actor decision expected) ≡ true
          → q actor.actor_id ≡ true)
      → Holds q k r
      → Holds q k r'
  decided-Holds q k actor decision expected r r' done vote i =
      let round = round_of r.current_patch_version in
      let rows = (decided d actor decision r).approvals in
      let same_round : round_of r.current_patch_version ≡ k = ap round_of i.patched in
      let yes : (decision == approve) ≡ true → q actor.actor_id ≡ true = λ e.
        let free = separated actor.actor_id (ground (arith, e, done.duties)) in
        vote (ground (arith, e, done.human, free, ==_refl actor.actor_id)) in
      subst (λ s. Holds q k s) done.result
        (record {
          patched = i.patched;
          proper = rw same_round (approvers-record_approval approve k q _ r.approvals i.proper yes);
          enough = λ e.
              subst
                (λ n.
                  threshold d.required_publication_approvals ≤ length (approvers approve n rows))
                same_round (ready_reached decision (length (approvers approve round rows)) _ e);
        })

  module _ (q : String → Bool) (k : ℕ) (r r' : RecoveryRunState) (i : Holds q k r) where
    -- An operation that leaves the patch and the approvals, and does not release the recovery.
    unreleased :
        (s : RecoveryRunState)
        → ◌≡◌ {A = Option RecoveryRunState} (some s) (some r')
        → s.current_patch_version ≡ r.current_patch_version
        → s.approvals ≡ r.approvals
        → (s.status ≡ ready_to_publish → r.status ≡ ready_to_publish)
        → Holds q k r'
    unreleased s done patches rows status =
        let same : s ≡ r' = cc in
        subst (λ v. Holds q k v) same
          (record {
            patched = patches ∙ i.patched;
            proper = rw rows i.proper;
            enough = λ e. rw rows (i.enough (status e));
          })

    work-Holds :
        (w : String) (c : WorkerCommand) (now : ℕ)
        → IsModest d c
        → work w c now r ≡ some r'
        → Holds q k r'
    unfolding work acquire_lease heartbeat restart_for_retry release_lease checkpoint
        record_worktree record_patch complete mark_cleanup
    work-Holds w (acquire seconds) now m h =
        let (_, done) = updated _ _ h in unreleased _ done refl refl (λ e. e)
    work-Holds w (beat seconds) now m h =
        let (_, done) = accepted-throw_if (not (holds_lease w now r)) lease_lost _ h in
        unreleased _ done refl refl (λ e. e)
    work-Holds w restart now m h =
        let (_, done) = accepted-throw_if (not (holds_lease w now r)) lease_lost _ h in
        unreleased _ done refl refl (λ e. cc)
    work-Holds w release now m h =
        let (_, checked) = accepted-throw_if (not (holds_lease w now r)) lease_lost _ h in
        let (_, done) =
          accepted-throw_if (not (contains gate_statuses r.status)) not_at_gate _ checked in
        unreleased _ done refl refl (λ e. e)
    work-Holds w (reach stage) now m h =
        let (_, checked) = accepted-throw_if (not (holds_lease w now r)) lease_lost _ h in
        let (_, (_, free)) =
          accepted->>= (refused (assert_recovery_transition r.status stage)) _ checked in
        let (_, done) =
          accepted-throw_if (is_numbered (r.current_checkpoint + 1) r.checkpoints) duplicate_row _
            free in
        unreleased _ done refl refl (λ e. absurd (m e))
    work-Holds w (prepare path_ref path branch base) now m h =
        let (_, done) = accepted-throw_if (not (holds_lease w now r)) lease_lost _ h in
        unreleased _ done refl refl (λ e. e)
    work-Holds w (patch elsewhere p) now m h = absurd m
    work-Holds w (finish status code) now m h =
        let (_, done) = accepted-throw_if (not (holds_lease w now r)) lease_lost _ h in
        unreleased _ done refl refl (λ e. absurd (m e))
    work-Holds w (clean absent deleted code) now m h = unreleased _ h refl refl (λ e. e)

    resume-Holds : (clock : ℕ) → accepted (resume_recovery clock r) ≡ some r' → Holds q k r'
    unfolding resume_recovery
    resume-Holds clock h =
        let (_, done) = accepted-throw_if (not (contains resumable r.status)) not_resumable _ h in
        unreleased _ done refl refl (λ e. cc)

    revise-Holds :
        (expected : ℕ) (comment : String)
        → accepted (request_revision expected comment r) ≡ some r'
        → Holds q k r'
    unfolding request_revision
    revise-Holds expected comment h =
        let (_, h1) = accepted-throw_if (not (r.version == expected)) version_conflict _ h in
        let (_, h2) = accepted-throw_if (not (contains revisable r.status)) revision_refused _ h1 in
        let (_, done) =
          accepted-throw_if (any (same_job (revision_key (r.version + 1))) r.jobs) duplicate_row _
            h2 in
        unreleased _ done refl refl (λ e. cc)

    perform-Holds :
        (c : RecoveryCommand) (now : ℕ)
        → IsOrdinary d c
        → ((name : String) → is_proper d name c ≡ true → q name ≡ true)
        → perform c now r ≡ some r'
        → Holds q k r'
    unfolding perform request_cancellation
    perform-Holds (by_worker w c) now m vote h = work-Holds w c now m h
    perform-Holds cancel now m vote h = unreleased _ h refl refl (λ e. e)
    perform-Holds (resume clock) now m vote h = resume-Holds clock h
    perform-Holds (revise expected comment) now m vote h = revise-Holds expected comment h
    perform-Holds (decide given actor decision expected) now m vote h =
        decided-Holds q k actor decision expected r r'
          (decide_publication-IsDecided d actor decision expected r r' (
            accepted-ok _ (
              subst (λ g. accepted (decide_publication g actor decision expected r) ≡ some r') m
                h)))
          (vote actor.actor_id) i

  run_all-Holds :
      (q : String → Bool) (k : ℕ) (history : List (ℕ × RecoveryCommand)) (r : RecoveryRunState)
      → All (λ x. IsOrdinary d x.1) history
      → ((name : String) → has_approved d history name ≡ true → q name ≡ true)
      → Holds q k r
      → Holds q k (run_all history r)
  run_all-Holds q k [] r ordinary votes i = i
  run_all-Holds q k ((now, c) ∷ later) r (first, rest) votes i =
      let next : Holds q k (attempt c now r) = elim (Option-cases (perform c now r)) [
        | inl thrown ↦ rw (thrown, attempt) i
        | inr (r', h) ↦
            rw (h, attempt)
              (perform-Holds q k r r' i c now first (λ name e. votes name (ground (arith, e))) h)
      ] in
      run_all-Holds q k later (attempt c now r) rest (λ name e. votes name (ground (arith, e))) next

-- The names of a release: different people, one at least and as many as the policy asks for, each of
-- whom asked for an approval that he may give.
pub record IsReleasedBy (d : DecisionContext) (history : List (ℕ × RecoveryCommand))
    (names : List String) : Type 0 where
  pub different : AllDifferent names
  pub someone : 1 ≤ length names
  pub enough : (n : ℕ) → d.required_publication_approvals ≡ some n → n ≤ length names
  pub proper : all (has_approved d history) names ≡ true

threshold-positive : (required : Option ℕ) → 1 ≤ threshold required
threshold-positive none = omega arith
threshold-positive (some n) = omega arith

threshold-required : (required : Option ℕ) (n : ℕ) → required ≡ some n → n ≤ threshold required
threshold-required none n e = cc
threshold-required (some m) n e = ground (arith, e)

-- A recovery that waits for approval, with no approval yet of its current patch, is ready to publish
-- after a history of commands only if as many different people as the policy requires, and at least
-- one, asked in that history for an approval, each a human user and, where more than one approval is
-- required or the plan's risk is high or critical, nobody who approved the treatment plan. In the
-- history workers and users try any operations in any order, of which those that throw leave the
-- recovery as it was; only no patch is recorded, no worker asks for a checkpoint or a completion with
-- the status READY_TO_PUBLISH, which the store would grant without an approval, and the decisions are
-- all made on one policy, plan risk and set of the plan's approvers.
pub decide_publication-quorum :
    (d : DecisionContext) (history : List (ℕ × RecoveryCommand)) (r : RecoveryRunState) (k : ℕ)
    → All (λ x. IsOrdinary d x.1) history
    → r.status ≡ awaiting_publication_approval
    → r.current_patch_version ≡ some k
    → approvers approve k r.approvals ≡ []
    → (run_all history r).status ≡ ready_to_publish
    → (names : List String) × IsReleasedBy d history names
decide_publication-quorum d history r k ordinary waiting patched none_yet released =
    let start : Holds d (has_approved d history) k r = record {
      patched = patched;
      proper = rw none_yet refl;
      enough = λ e. absurd (cc);
    } in
    let end = run_all-Holds d (has_approved d history) k history r ordinary (λ name e. e) start in
    let required = d.required_publication_approvals in
    (
      approvers approve k (run_all history r).approvals,
      record {
        different = approvers-AllDifferent approve k (run_all history r).approvals;
        someone = omega (arith, end.enough released, threshold-positive required);
        enough = λ n e. omega (arith, end.enough released, threshold-required required n e);
        proper = end.proper;
      },
    )
