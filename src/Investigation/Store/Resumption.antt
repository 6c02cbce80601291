-- ===== src/Investigation/Store/Resumption.antt =====
-- What a resumption of an investigation does: from which statuses, and whether a job is queued.
use coder_er.Base.{
  ℕ, ◌≡◌, refl, Bool, true, false, not, Option, none, some, List, [], ◌∷◌, contains, nat_equality,
  ok, err, arith, Option-cases, inl, inr, all, &&_parts, throw_if-passed, subst, if◌then◌else◌,
}
use coder_er.Leases.Columns.{accepted-throw_if, accepted->>=, accepted-ok, updated}
use coder_er.Approvals.{StoreActorContext, is_human}
use coder_er.Investigation.Status.{
  InvestigationStatus, investigation_status_equality, policy_check, revision_requested,
  insufficient_evidence, timed_out, model_failed, tool_failed,
}
use coder_er.Investigation.Lifecycle.{assert_investigation_transition}
use coder_er.Investigation.Plan.{PlanApprovalDecision, TreatmentPlan}
use coder_er.Investigation.Store.{
  InvestigationRunState, created, resumed, resume_investigation, retryable, transition_refused,
  not_resumable, holds_lease, lease_lost, refused, request_cancellation, acquire_lease,
  reconcile_stale, heartbeat, fail_investigation, not_human, uncancellable,
}
use coder_er.Investigation.Store.Plans.{decide_plan, decide_treatment_plan}
use coder_er.Investigation.Store.Decisions.{decide_plan-IsDecided}
use coder_er.Investigation.Store.Commands.{
  InvestigationCommand, acquire, beat, reach, fail, cancel, reconcile, resume, decide, perform,
}

abbrev pub resumes : List InvestigationStatus
resumes = timed_out ∷ model_failed ∷ []

abbrev pub refuses : List InvestigationStatus
refuses = insufficient_evidence ∷ tool_failed ∷ revision_requested ∷ []

permitted :
    (s : InvestigationStatus)
    → contains resumes s ≡ true
    → (contains retryable s ≡ true)
      × (refused (assert_investigation_transition s policy_check) ≡ ok tt)
unfolding assert_investigation_transition
permitted timed_out h = (refl, refl)
permitted model_failed h = (refl, refl)
permitted _ h = cc

forbidden :
    (s : InvestigationStatus)
    → contains refuses s ≡ true
    → (contains retryable s ≡ true)
      × (refused (assert_investigation_transition s policy_check) ≡ err transition_refused)
unfolding assert_investigation_transition
forbidden insufficient_evidence h = (refl, refl)
forbidden tool_failed h = (refl, refl)
forbidden revision_requested h = (refl, refl)
forbidden _ h = cc

-- An investigation that timed out or whose model failed is resumed. One without enough evidence, with
-- a failed tool or with a requested revision, which the code lists as retryable, is always refused by
-- the transition table, and every other one as not resumable.
pub resume_investigation-outcomes :
    (r : InvestigationRunState)
    → (contains resumes r.status ≡ true → resume_investigation r ≡ ok (resumed r))
      × (contains refuses r.status ≡ true → resume_investigation r ≡ err transition_refused)
      × (contains retryable r.status ≡ false → resume_investigation r ≡ err not_resumable)
unfolding resume_investigation
resume_investigation-outcomes r = (
  λ h. rw ((permitted r.status h).0, (permitted r.status h).1) refl,
  λ h. rw ((forbidden r.status h).0, (forbidden r.status h).1) refl,
  λ h. rw h refl,
)

-- Whether a command is no checkpoint.
abbrev pub is_no_checkpoint : ℕ × InvestigationCommand → Bool
is_no_checkpoint (now, reach w stage) = false
is_no_checkpoint (now, _) = true

-- The investigation after commands that take effect or throw, each at its time.
abbrev pub try : ℕ × InvestigationCommand → InvestigationRunState → InvestigationRunState
try (now, c) r = elim (perform c now r) [ none ↦ r | some r' ↦ r' ]

abbrev pub try_all : List (ℕ × InvestigationCommand) → InvestigationRunState → InvestigationRunState
try_all [] r = r
try_all (c ∷ later) r = try_all later (try c r)

-- No checkpoint yet, and only the first job.
record IsFresh (r : InvestigationRunState) : Type 0 where
  unchecked : r.current_checkpoint ≡ 0
  one_job : r.jobs ≡ 1 ∷ []

if_either :
    (test : Bool) (a b : InvestigationRunState)
    → IsFresh a
    → IsFresh b
    → IsFresh (if test then a else b)
if_either true a b i j = i
if_either false a b i j = j

module _ (r r' : InvestigationRunState) (i : IsFresh r) (now : ℕ) where
  left :
      (s : InvestigationRunState)
      → ◌≡◌ {A = Option InvestigationRunState} (some s) (some r')
      → IsFresh s
      → IsFresh r'
  left s done k = let same : s ≡ r' = cc in subst (λ v. IsFresh v) same k

  decide_plan-IsFresh :
      (actor : StoreActorContext) (decision : PlanApprovalDecision) (expected : ℕ)
      (found : Option TreatmentPlan)
      → is_human actor ≡ true
      → decide_plan actor decision expected found r ≡ ok r'
      → IsFresh r'
  unfolding decide_plan
  decide_plan-IsFresh actor decision expected none human h = cc
  decide_plan-IsFresh actor decision expected (some plan) human h =
      elim (decide_plan-IsDecided actor decision expected (some plan) plan r r' human refl
        h).result [
          | inl same ↦ subst IsFresh same i
          | inr new ↦ subst IsFresh new (record { unchecked = i.unchecked; one_job = i.one_job })
        ]

  perform-IsFresh :
      (c : InvestigationCommand)
      → is_no_checkpoint (now, c) ≡ true
      → perform c now r ≡ some r'
      → IsFresh r'
  unfolding perform acquire_lease heartbeat fail_investigation resume_investigation
      request_cancellation reconcile_stale decide_treatment_plan
  perform-IsFresh (acquire w seconds) k h =
      let (_, done) = updated _ _ h in
      left _ done (record { unchecked = i.unchecked; one_job = i.one_job })
  perform-IsFresh (beat w seconds) k h =
      let (_, done) = accepted-throw_if (not (holds_lease w now r)) lease_lost _ h in
      left _ done (record { unchecked = i.unchecked; one_job = i.one_job })
  perform-IsFresh (reach w stage) k h = cc
  perform-IsFresh (fail w status code) k h =
      let (_, done) = accepted-throw_if (not (holds_lease w now r)) lease_lost _ h in
      left _ done (record { unchecked = i.unchecked; one_job = i.one_job })
  perform-IsFresh cancel k h = left _ h (
      if_either (contains uncancellable r.status) r _ i
        (record { unchecked = i.unchecked; one_job = i.one_job }))
  perform-IsFresh (reconcile idle) k h =
      let (_, done) = updated _ _ h in
      left _ done (record { unchecked = i.unchecked; one_job = i.one_job })
  perform-IsFresh resume k h =
      let (_, h1) = accepted-throw_if (not (contains retryable r.status)) not_resumable _ h in
      let (_, (_, done)) =
        accepted->>= (refused (assert_investigation_transition r.status policy_check)) _ h1 in
      left _ done (record { unchecked = i.unchecked; one_job = rw (i.one_job, i.unchecked) refl })
  perform-IsFresh (decide actor decision expected) k h =
      let (human, decided_ok) =
        throw_if-passed (not (is_human actor)) not_human _ (accepted-ok _ h) in
      decide_plan-IsFresh actor decision expected r.plan (ground (arith, human)) decided_ok

try_all-IsFresh :
    (history : List (ℕ × InvestigationCommand)) (r : InvestigationRunState)
    → all is_no_checkpoint history ≡ true
    → IsFresh r
    → IsFresh (try_all history r)
try_all-IsFresh [] r k i = i
try_all-IsFresh ((now, c) ∷ later) r k i =
    let (here, rest) = &&_parts (is_no_checkpoint (now, c)) _ k in
    elim (Option-cases (perform c now r)) [
      | inl refused ↦ rw (refused, try) (try_all-IsFresh later r rest i)
      | inr (r', h) ↦
          rw (h, try) (try_all-IsFresh later r' rest (perform-IsFresh r r' i now c here h))
    ]

-- Until an investigation has reached a checkpoint, no resumption queues a job: whatever workers and
-- users do to a new investigation without a checkpoint, also when it fails and is resumed, the only
-- job that is ever queued for it is the first.
pub resume_investigation-no_job :
    (history : List (ℕ × InvestigationCommand))
    → all is_no_checkpoint history ≡ true
    → (try_all history created).jobs ≡ created.jobs
resume_investigation-no_job history k =
    (try_all-IsFresh history created k (record { unchecked = refl; one_job = refl })).one_job
