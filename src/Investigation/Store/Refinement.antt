-- ===== src/Investigation/Store/Refinement.antt =====
-- The operations on an investigation follow the lease protocol, and so exclude one another.
use coder_er.Base.{
  sym, ◌∙◌, List, All, ℕ, ◌+◌, ◌≡◌, refl, true, String, Option, none, some, ok, contains, not,
  &&_parts, ap, arith, throw_if-passed, inl, inr,
}
use coder_er.Leases.{Lease, free, held, lease_step, lasts, clamp_lease}
use coder_er.Leases.Columns.{
  asserted_live, lease_left, accepted-ok, accepted-throw_if, accepted->>=, updated, renewed_columns,
  past_columns, takeable_columns,
}
use coder_er.Leases.Histories.{LeasedStore, AllowsOnly, IsBetween, attempt-AllowsOnly}
use coder_er.Approvals.{StoreActorContext, is_human}
use coder_er.Investigation.Status.{investigation_status_equality, policy_check}
use coder_er.Investigation.Lifecycle.{assert_investigation_transition}
use coder_er.Investigation.Plan.{PlanApprovalDecision, TreatmentPlan}
use coder_er.Investigation.Store.{
  InvestigationRunState, acquire_lease, heartbeat, checkpoint, fail_investigation, reconcile_stale,
  request_cancellation, resume_investigation, retryable, refused, lease_lost, not_resumable,
  not_human,
}
use coder_er.Investigation.Store.Plans.{decide_plan, decide_treatment_plan}
use coder_er.Investigation.Store.Decisions.{decide_plan-IsDecided}
use coder_er.Investigation.Store.Commands.{
  InvestigationCommand, acquire, beat, reach, fail, reconcile, cancel, resume, decide, perform,
  action, lease,
}

-- A cancellation request leaves the lease alone, whether it is noted or not.
cancelled_lease :
    (now : ℕ) (r : InvestigationRunState) → lease (request_cancellation now r) ≡ lease r
unfolding request_cancellation
cancelled_lease now r = ground arith

decide_plan-lease :
    (actor : StoreActorContext) (decision : PlanApprovalDecision) (expected : ℕ)
    (found : Option TreatmentPlan) (r r' : InvestigationRunState)
    → is_human actor ≡ true
    → decide_plan actor decision expected found r ≡ ok r'
    → lease r' ≡ lease r
unfolding decide_plan
decide_plan-lease actor decision expected none r r' human h = cc
decide_plan-lease actor decision expected (some plan) r r' human h =
    elim (decide_plan-IsDecided actor decision expected (some plan) plan r r' human refl h).result [
      | inl same ↦ ap lease (sym same)
      | inr new ↦ ap lease (sym new)
    ]

-- An operation on an investigation that takes effect, where the two lease columns are both set or
-- both NULL, does to the lease what the lease protocol allows for it, and leaves both columns set or
-- both NULL.
pub perform-follows_protocol :
    (c : InvestigationCommand) (now : ℕ) (r r' : InvestigationRunState) (l : Lease)
    → lease r ≡ some l
    → perform c now r ≡ some r'
    → (l' : Lease) × ((lease_step (action c) now l ≡ some l') × (lease r' ≡ some l'))
unfolding perform lease_step acquire_lease heartbeat checkpoint fail_investigation
    resume_investigation reconcile_stale decide_treatment_plan
perform-follows_protocol (acquire w seconds) now r r' l e h =
    let (found, done) = updated _ _ h in
    let (free_or_own, _) = &&_parts _ _ found in
    let mine = takeable_columns w now l r.lease_owner r.lease_expires e free_or_own in
    (held w (now + clamp_lease seconds), (rw mine refl, lease_left lease _ r' _ done refl))
perform-follows_protocol (beat w seconds) now r r' l e h =
    let (alive, done) = asserted_live w now l r.lease_owner r.lease_expires lease_lost _ e h in
    (
      held w (now + clamp_lease seconds),
      (
        rw alive refl,
        lease_left lease _ r' _ done
            (renewed_columns w now l r.lease_owner r.lease_expires _ e alive),
      ),
    )
perform-follows_protocol (reach w stage) now r r' l e h =
    let (alive, checked) = asserted_live w now l r.lease_owner r.lease_expires lease_lost _ e h in
    let (_, (_, done)) =
      accepted->>= (refused (assert_investigation_transition r.status stage)) _ checked in
    (l, (rw alive refl, lease_left lease _ r' l done e))
perform-follows_protocol (fail w status code) now r r' l e h =
    let (alive, done) = asserted_live w now l r.lease_owner r.lease_expires lease_lost _ e h in
    (free, (rw alive refl, lease_left lease _ r' free done refl))
perform-follows_protocol cancel now r r' l e h =
    (l, (refl, lease_left lease (request_cancellation now r) r' l h (cancelled_lease now r ∙ e)))
perform-follows_protocol (reconcile idle) now r r' l e h =
    let (found, done) = updated _ _ h in
    let (past, _) = &&_parts _ _ found in
    let (run_out, _) = &&_parts _ _ past in
    let gone = past_columns "" now l r.lease_owner r.lease_expires e run_out in
    (free, (rw gone refl, lease_left lease _ r' free done refl))
perform-follows_protocol resume now r r' l e h =
    let (_, h1) = accepted-throw_if (not (contains retryable r.status)) not_resumable _ h in
    let (_, (_, done)) =
      accepted->>= (refused (assert_investigation_transition r.status policy_check)) _ h1 in
    (free, (refl, lease_left lease _ r' free done refl))
perform-follows_protocol (decide actor decision expected) now r r' l e h =
    let (human, done) = throw_if-passed (not (is_human actor)) not_human _ (accepted-ok _ h) in
    let same = decide_plan-lease actor decision expected r.plan r r' (ground (arith, human)) done in
    (l, (refl, same ∙ e))

pub long_action : (c : InvestigationCommand) → lasts 15 (action c) ≡ true
long_action (acquire w seconds) = ground arith
long_action (beat w seconds) = ground arith
long_action (reach w stage) = refl
long_action (fail w status code) = refl
long_action cancel = refl
long_action (reconcile idle) = refl
long_action resume = refl
long_action (decide actor decision expected) = refl

-- Investigations as a client of the lease protocol. A lease is for 15 seconds at least.
abbrev pub investigations : LeasedStore InvestigationRunState InvestigationCommand 15
investigations = record {
  step = perform;
  lease = lease;
  action = action;
  long_enough = long_action;
  refines = perform-follows_protocol;
}

-- When a worker has acquired the lease of an investigation, then in the 15 seconds that follow, of
-- the operations that any workers and users try in any order, as long as none of them is a failure or
-- a resumption, each that is another worker's is refused.
pub acquire_lease-excludes :
    (a : String) (seconds now : ℕ) (r r' : InvestigationRunState)
    (history : List (ℕ × InvestigationCommand))
    → acquire_lease a seconds now r ≡ some r'
    → All (IsBetween investigations (now + 15)) history
    → AllowsOnly investigations a history r'
unfolding acquire_lease
acquire_lease-excludes a seconds now r r' history h between =
    let (_, done) = updated _ _ h in
    attempt-AllowsOnly investigations a (now + 15) (now + clamp_lease seconds) history r'
      (lease_left lease _ r' (held a (now + clamp_lease seconds)) done refl) (ground arith) between
