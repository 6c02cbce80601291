-- ===== src/Examples/Investigations.antt =====
-- An investigation, its lease, its resumption, and the decisions on its treatment plan.
use coder_er.Base.{ℕ, ◌≡◌, refl, true, false, String, some, List, [], ◌∷◌, ok, err, contains}
use coder_er.Approvals.{ActorType, approvers}
use coder_er.Investigation.Status.{InvestigationStatus, investigation_status_equality}
use coder_er.Investigation.Lifecycle.{assert_investigation_transition}
use coder_er.Investigation.Plan.{
  PlanApprovalDecision, TreatmentPlan, plan_awaiting_approval, plan_approved,
}
use coder_er.Investigation.Store.{
  InvestigationRunState, created, resumed, checkpoint, resume_investigation, retryable,
  transition_refused, not_resumable,
}
use coder_er.Investigation.Store.Plans.{decide_treatment_plan, decide_plan}
use coder_er.Investigation.Store.Decisions.{Asked, IsApprovedBy, decide_treatment_plan-quorum}
use coder_er.Investigation.Store.Resumption.{
  resumes, refuses, resume_investigation-outcomes, resume_investigation-no_job, try_all,
}
use coder_er.Investigation.Store.Commands.{
  InvestigationCommand, acquire, reach, fail, resume, perform,
}

abbrev held_run : InvestigationRunState
held_run = record created {
  lease_owner = some "w1";
  lease_expires = some 160;
  heartbeat_at = some 100;
  started_at = some 100;
}

abbrev checked_run : InvestigationRunState
checked_run = record held_run {
  status = InvestigationStatus.policy_check;
  current_checkpoint = 1;
  checkpoints =
      record { sequence = 1; stage = InvestigationStatus.policy_check; lease_owner = "w1" } ∷ [];
}

checked : perform (reach "w1" InvestigationStatus.policy_check) 101 held_run ≡ some checked_run
unfolding perform checkpoint assert_investigation_transition
checked = refl

resume_investigation-outcomes_example :
    (contains resumes InvestigationStatus.policy_check ≡ true
      → resume_investigation checked_run ≡ ok (resumed checked_run))
    × (contains refuses InvestigationStatus.policy_check ≡ true
        → resume_investigation checked_run ≡ err transition_refused)
    × (contains retryable InvestigationStatus.policy_check ≡ false
        → resume_investigation checked_run ≡ err not_resumable)
resume_investigation-outcomes_example = resume_investigation-outcomes checked_run

-- A worker takes a new investigation and fails before its first checkpoint; a user resumes it.
abbrev failed_early : List (ℕ × InvestigationCommand)
failed_early =
    (100, acquire "w1" 60)
    ∷ (101, fail "w1" InvestigationStatus.model_failed "MODEL")
    ∷ (200, resume)
    ∷ []

resume_investigation-no_job_example : (try_all failed_early created).jobs ≡ 1 ∷ []
resume_investigation-no_job_example = resume_investigation-no_job failed_early refl

abbrev open_plan : TreatmentPlan
open_plan = record {
  version = 1;
  status = plan_awaiting_approval;
  required_approvals = 2;
  approvals = [];
}

abbrev planned_run : InvestigationRunState
planned_run = record checked_run {
  status = InvestigationStatus.awaiting_approval;
  plan = some open_plan;
}

abbrev approval : String → ActorType → Asked
approval name kind = record {
  actor = record { actor_id = name; actor_type = kind; actor_roles = [] };
  decision = PlanApprovalDecision.approve;
  expected_version = 1;
}

-- An approval, the same again, one by a service, and one by another person.
abbrev asked : List Asked
asked =
    approval "ann" ActorType.user
    ∷ approval "ann" ActorType.user
    ∷ approval "bot" ActorType.service
    ∷ approval "bob" ActorType.user
    ∷ []

abbrev approved_plan : TreatmentPlan
approved_plan = record {
  version = 1;
  status = plan_approved;
  required_approvals = 2;
  approvals =
      record { round = 1; decision = PlanApprovalDecision.approve; actor_id = "bob" }
      ∷ record { round = 1; decision = PlanApprovalDecision.approve; actor_id = "ann" }
      ∷ [];
}

decide_treatment_plan-quorum_example : (names : List String) × IsApprovedBy asked 2 names
unfolding decide_treatment_plan decide_plan approvers
decide_treatment_plan-quorum_example =
    decide_treatment_plan-quorum asked planned_run open_plan approved_plan refl refl refl refl refl
