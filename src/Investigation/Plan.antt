-- ===== src/Investigation/Plan.antt =====
-- Treatment plans and the decisions on them (packages/contracts/src/index.ts,
-- packages/database/src/investigation-store.ts).
use coder_er.Base.{
  ℕ, Bool, true, false, not, ◌&&◌, some, List, [], ◌∷◌, ltb, ◌==◌, nat_equality, string_equality,
  ◌≡◌, refl, get_elem?, Equality,
}
use coder_er.Base.Finite.{Finite, equality}
use coder_er.Approvals.{StoreActorContext, Approval}
use coder_er.Investigation.Status.{
  InvestigationStatus, investigation_status_equality, approved, rejected, revision_requested,
  awaiting_approval,
}

-- The decisions on a treatment plan (packages/contracts/src/index.ts).
pub data PlanApprovalDecision : Type 0 where
  approve reject request_revision : PlanApprovalDecision

abbrev plan_decision_index : PlanApprovalDecision → ℕ
plan_decision_index approve = 0
plan_decision_index reject = 1
plan_decision_index request_revision = 2

pub plan_decision_found :
    (d : PlanApprovalDecision)
    → get_elem? (approve ∷ reject ∷ request_revision ∷ []) (plan_decision_index d) ≡ some d
plan_decision_found approve = refl
plan_decision_found _ = refl

abbrev plan_decision_finite : Finite PlanApprovalDecision
plan_decision_finite = record {
  index = plan_decision_index;
  members = approve ∷ reject ∷ request_revision ∷ [];
  found = plan_decision_found;
}

instance abbrev pub plan_decision_equality : Equality PlanApprovalDecision
plan_decision_equality = equality plan_decision_finite

-- The statuses of a treatment plan (packages/contracts/src/index.ts).
pub data TreatmentPlanStatus : Type 0 where
  plan_draft plan_security_review plan_critic_review plan_awaiting_approval plan_approved
        plan_rejected plan_revision_requested plan_superseded :
      TreatmentPlanStatus

abbrev pub is_awaiting : TreatmentPlanStatus → Bool
is_awaiting plan_awaiting_approval = true
is_awaiting _ = false

pub record TreatmentPlan : Type 0 where
  pub version : ℕ
  pub status : TreatmentPlanStatus
  pub required_approvals : ℕ
  pub approvals : List (Approval PlanApprovalDecision)

-- Whether so many have approved.
abbrev pub reaches : PlanApprovalDecision → ℕ → ℕ → Bool
reaches decision count required = decision == approve && not (ltb count required)

abbrev pub next_plan_status : PlanApprovalDecision → Bool → TreatmentPlanStatus
next_plan_status approve true = plan_approved
next_plan_status approve false = plan_awaiting_approval
next_plan_status reject reached = plan_rejected
next_plan_status request_revision reached = plan_revision_requested

abbrev pub next_run_status : PlanApprovalDecision → Bool → InvestigationStatus
next_run_status approve true = approved
next_run_status approve false = awaiting_approval
next_run_status reject reached = rejected
next_run_status request_revision reached = revision_requested

abbrev pub approval_row :
    StoreActorContext → PlanApprovalDecision → ℕ → Approval PlanApprovalDecision
approval_row actor decision round = record {
  round = round;
  decision = decision;
  actor_id = actor.actor_id;
}
