-- ===== src/Investigation/Store/Decisions.antt =====
-- What it takes to approve a treatment plan: decisions one after another.
use coder_er.Base.{
  ◌≢◌, ℕ, ◌≤◌, ◌≡◌, refl, Bool, true, false, not, ◌&&◌, String, Option, none, some, List, [], ◌∷◌,
  any, all, length, ◌==◌, ==_refl, nat_equality, string_equality, Result, ok, arith, Option-cases,
  inl, inr, ◌⊎◌, subst, ap, ◌∙◌, throw_if-passed, if◌then◌else◌,
}
use coder_er.Leases.{accepted}
use coder_er.Leases.Columns.{accepted-ok}
use coder_er.Approvals.{StoreActorContext, is_human, approvers, count_approvers}
use coder_er.Approvals.Counting.{AllDifferent, approvers-AllDifferent, approvers-cons}
use coder_er.Investigation.Plan.{
  PlanApprovalDecision, approve, reject, request_revision, TreatmentPlan, plan_approved,
  TreatmentPlanStatus, is_awaiting, approval_row, reaches, next_plan_status, plan_decision_equality,
}
use coder_er.Investigation.Store.{
  InvestigationStoreError, InvestigationRunState, not_human, version_conflict, not_decidable,
}
use coder_er.Investigation.Store.Plans.{decided_plan, decided, decide_plan, decide_treatment_plan}

-- What a decision that is accepted says: its guards passed, and it left the run as it was where the
-- decision was in the table, or recorded it.
pub record IsDecided (actor : StoreActorContext) (decision : PlanApprovalDecision) (expected : ℕ)
    (plan : TreatmentPlan) (r r' : InvestigationRunState) : Type 0 where
  pub human : is_human actor ≡ true
  pub current : plan.version ≡ expected
  pub awaiting : is_awaiting plan.status ≡ true
  pub result : (r ≡ r') ⊎ (decided actor decision plan r ≡ r')

one_of :
    (test : Bool) (a b c : InvestigationRunState)
    → ◌≡◌ {A = Result InvestigationStoreError InvestigationRunState}
        (ok (if test then a else b))
        (ok c)
    → (a ≡ c) ⊎ (b ≡ c)
one_of true a b c h = inl cc
one_of false a b c h = inr cc

pub decide_plan-IsDecided :
    (actor : StoreActorContext) (decision : PlanApprovalDecision) (expected : ℕ)
    (found : Option TreatmentPlan) (plan : TreatmentPlan) (r r' : InvestigationRunState)
    → is_human actor ≡ true
    → found ≡ some plan
    → decide_plan actor decision expected found r ≡ ok r'
    → IsDecided actor decision expected plan r r'
unfolding decide_plan
decide_plan-IsDecided actor decision expected none plan r r' human e h = cc
decide_plan-IsDecided actor decision expected (some p) plan r r' human e h =
    let same : p ≡ plan = cc in
    let (current, h1) = throw_if-passed (not (p.version == expected)) version_conflict _ h in
    let (awaiting, h2) = throw_if-passed (not (is_awaiting p.status)) not_decidable _ h1 in
    subst (λ q. IsDecided actor decision expected q r r') same
      (record {
        human = human;
        current = ground (arith, current);
        awaiting = ground (arith, awaiting);
        result = one_of _ r (decided actor decision p r) r' h2;
      })

pub decide_treatment_plan-IsDecided :
    (actor : StoreActorContext) (decision : PlanApprovalDecision) (expected : ℕ)
    (plan : TreatmentPlan) (r r' : InvestigationRunState)
    → r.plan ≡ some plan
    → decide_treatment_plan actor decision expected r ≡ ok r'
    → IsDecided actor decision expected plan r r'
unfolding decide_treatment_plan
decide_treatment_plan-IsDecided actor decision expected plan r r' e h =
    let (human, rest) = throw_if-passed (not (is_human actor)) not_human _ h in
    decide_plan-IsDecided actor decision expected r.plan plan r r' (ground (arith, human)) e rest

-- A decision as it is asked for.
pub record Asked : Type 0 where
  pub actor : StoreActorContext
  pub decision : PlanApprovalDecision
  pub expected_version : ℕ

-- The investigation after a decision that takes effect or throws.
abbrev pub ask : Asked → InvestigationRunState → InvestigationRunState
ask x r = elim (accepted (decide_treatment_plan x.actor x.decision x.expected_version r)) [
  | none ↦ r
  | some r' ↦ r'
]

abbrev pub ask_all : List Asked → InvestigationRunState → InvestigationRunState
ask_all [] r = r
ask_all (x ∷ later) r = ask_all later (ask x r)

-- An approval by a human.
abbrev pub is_proper : String → Asked → Bool
is_proper name x = x.actor.actor_id == name && x.decision == approve && is_human x.actor

abbrev pub has_approved : List Asked → String → Bool
has_approved asked name = any (is_proper name) asked

ready_reached :
    (decision : PlanApprovalDecision) (count required : ℕ)
    → next_plan_status decision (reaches decision count required) ≡ plan_approved
    → required ≤ count
ready_reached approve count required h = ground (arith, h)
ready_reached reject count required h = cc
ready_reached request_revision count required h = cc

unapproved : (s : TreatmentPlanStatus) → is_awaiting s ≡ true → s ≢ plan_approved
unapproved plan_approved h e = cc
unapproved _ h e = cc

module _ (q : String → Bool) (k n : ℕ) where
  record Holds (r : InvestigationRunState) : Type 0 where
    plan : TreatmentPlan
    found : r.plan ≡ some plan
    round : plan.version ≡ k
    required : plan.required_approvals ≡ n
    proper : all q (approvers approve plan.version plan.approvals) ≡ true
    enough :
        plan.status ≡ plan_approved
        → plan.required_approvals ≤ count_approvers approve plan.version plan.approvals

  ask-Holds :
      (x : Asked) (r : InvestigationRunState)
      → (is_proper x.actor.actor_id x ≡ true → q x.actor.actor_id ≡ true)
      → Holds r
      → Holds (ask x r)
  ask-Holds x r vote i =
      let tried = decide_treatment_plan x.actor x.decision x.expected_version r in
      elim (Option-cases (accepted tried)) [
        | inl refused ↦ rw (refused, ask) i
        | inr (r', h) ↦
            let done =
              decide_treatment_plan-IsDecided x.actor x.decision x.expected_version i.plan r r'
                i.found (accepted-ok tried h) in
            let yes : (x.decision == approve) ≡ true → q x.actor.actor_id ≡ true =
              λ e. vote (ground (arith, e, done.human, ==_refl x.actor.actor_id)) in
            rw (h, ask)
              (elim done.result [
                | inl same ↦ subst Holds same i
                | inr new ↦ subst Holds new (record {
                  plan = decided_plan x.actor x.decision i.plan;
                  found = refl;
                  round = i.round;
                  required = i.required;
                  proper =
                      approvers-cons approve i.plan.version q
                        (approval_row x.actor x.decision i.plan.version) i.plan.approvals i.proper
                        yes;
                  enough = λ e. ready_reached x.decision _ _ e;
                })
              ])
      ]

  ask_all-Holds :
      (asked : List Asked) (r : InvestigationRunState)
      → ((name : String) → has_approved asked name ≡ true → q name ≡ true)
      → Holds r
      → Holds (ask_all asked r)
  ask_all-Holds [] r votes i = i
  ask_all-Holds (x ∷ later) r votes i =
      ask_all-Holds later (ask x r) (λ name e. votes name (ground (arith, e)))
        (ask-Holds x r (λ e. votes x.actor.actor_id (ground (arith, e))) i)

-- The names of an approval: different people, as many as the plan asks for, each of whom asked for it.
pub record IsApprovedBy (asked : List Asked) (required : ℕ) (names : List String) : Type 0 where
  pub different : AllDifferent names
  pub enough : required ≤ length names
  pub proper : all (has_approved asked) names ≡ true

-- A treatment plan that awaits approval, with no approval yet of its version, is approved after a
-- sequence of decisions only if as many different people as the plan requires asked in that sequence
-- for an approval, each a human user. A decision that throws leaves the plan as it was.
pub decide_treatment_plan-quorum :
    (asked : List Asked) (r : InvestigationRunState) (plan after : TreatmentPlan)
    → r.plan ≡ some plan
    → is_awaiting plan.status ≡ true
    → approvers approve plan.version plan.approvals ≡ []
    → (ask_all asked r).plan ≡ some after
    → after.status ≡ plan_approved
    → (names : List String) × IsApprovedBy asked plan.required_approvals names
decide_treatment_plan-quorum asked r plan after found awaiting none_yet left released =
    let q = has_approved asked in
    let start : Holds q plan.version plan.required_approvals r = record {
      plan = plan;
      found = found;
      round = refl;
      required = refl;
      proper = rw none_yet refl;
      enough = λ e. absurd (unapproved plan.status awaiting e);
    } in
    let end = ask_all-Holds q plan.version plan.required_approvals asked r (λ name e. e) start in
    let same : end.plan ≡ after = cc (end.found, left) in
    (
      approvers approve end.plan.version end.plan.approvals,
      record {
        different = approvers-AllDifferent approve end.plan.version end.plan.approvals;
        enough =
            subst (λ m. m ≤ count_approvers approve end.plan.version end.plan.approvals)
              end.required (end.enough (ap (λ p. p.status) same ∙ released));
        proper = end.proper;
      },
    )
