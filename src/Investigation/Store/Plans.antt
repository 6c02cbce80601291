-- ===== src/Investigation/Store/Plans.antt =====
-- The decision of a person on the treatment plan of an investigation
-- (packages/database/src/investigation-store.ts).
use coder_er.Base.{
  Bool, ℕ, not, Option, none, some, ◌∷◌, any, ◌==◌, nat_equality, string_equality, if◌then◌else◌,
  Result, ok, err, ◌>>◌, throw_if,
}
use coder_er.Approvals.{StoreActorContext, is_human, same_key, count_approvers}
use coder_er.Investigation.Status.{investigation_status_equality}
use coder_er.Investigation.Plan.{
  PlanApprovalDecision, approve, TreatmentPlan, is_awaiting, reaches, next_plan_status,
  next_run_status, approval_row, plan_decision_equality,
}
use coder_er.Investigation.Store.{
  InvestigationRunState, InvestigationStoreError, not_human, plan_not_found, version_conflict,
  not_decidable,
}

-- Whether the decision, once it is in the table, completes the required approvals.
abbrev pub completes : StoreActorContext → PlanApprovalDecision → TreatmentPlan → Bool
completes actor decision plan =
    reaches decision
      (count_approvers approve plan.version
        (approval_row actor decision plan.version ∷ plan.approvals))
      plan.required_approvals

-- The plan and the run that a decision leaves which is not in the table yet.
abbrev pub decided_plan : StoreActorContext → PlanApprovalDecision → TreatmentPlan → TreatmentPlan
decided_plan actor decision plan = record plan {
  approvals = approval_row actor decision plan.version ∷ plan.approvals;
  status = next_plan_status decision (completes actor decision plan);
}

abbrev pub decided :
    StoreActorContext
    → PlanApprovalDecision
    → TreatmentPlan
    → InvestigationRunState
    → InvestigationRunState
decided actor decision plan r = record r {
  plan = some (decided_plan actor decision plan);
  status = next_run_status decision (completes actor decision plan);
}

unfoldable pub decide_plan :
    StoreActorContext
    → PlanApprovalDecision
    → ℕ
    → Option TreatmentPlan
    → InvestigationRunState
    → Result InvestigationStoreError InvestigationRunState
decide_plan actor decision expected_version none r = err plan_not_found
decide_plan actor decision expected_version (some plan) r = do
  throw_if (not (plan.version == expected_version)) version_conflict
  throw_if (not (is_awaiting plan.status)) not_decidable
  ok (
      if any (same_key (approval_row actor decision plan.version)) plan.approvals
      then r
      else decided actor decision plan r)

unfoldable pub decide_treatment_plan :
    StoreActorContext
    → PlanApprovalDecision
    → ℕ
    → InvestigationRunState
    → Result InvestigationStoreError InvestigationRunState
unfolding decide_plan
decide_treatment_plan actor decision expected_version r = do
  throw_if (not (is_human actor)) not_human
  decide_plan actor decision expected_version r.plan r
