-- ===== src/Investigation/Lifecycle.antt =====
-- Which status changes an investigation may make (packages/ai/src/policy.ts).
pub mod Terminal
pub mod Milestones
use coder_er.Base.{Bool, not, List, [], ◌∷◌, ◌==◌, contains, Result, ok, throw_if, if◌then◌else◌}
use coder_er.Base.Machine.{InvalidTransition, invalid_transition}
use coder_er.Investigation.Status.{
  InvestigationStatus, requested, policy_check, context_building, triage, mapping, hypothesis,
  validation, security_review, plan_composition, critic_review, awaiting_approval,
  revision_requested, approved, rejected, policy_blocked, insufficient_evidence, cancelled,
  timed_out, model_failed, tool_failed, budget_exceeded, security_rejected,
  investigation_status_equality,
}

abbrev pub terminal : List InvestigationStatus
terminal =
    approved ∷ rejected ∷ policy_blocked ∷ insufficient_evidence ∷ cancelled ∷ timed_out
    ∷ model_failed ∷ tool_failed ∷ budget_exceeded ∷ security_rejected ∷ []

unfoldable pub is_terminal_investigation_status : InvestigationStatus → Bool
is_terminal_investigation_status status = contains terminal status

-- The table of permitted changes.
unfoldable pub transitions : InvestigationStatus → List InvestigationStatus
transitions requested = policy_check ∷ cancelled ∷ []
transitions policy_check = context_building ∷ policy_blocked ∷ cancelled ∷ []
transitions context_building = triage ∷ insufficient_evidence ∷ tool_failed ∷ cancelled ∷ []
transitions triage = mapping ∷ model_failed ∷ budget_exceeded ∷ cancelled ∷ []
transitions mapping = hypothesis ∷ model_failed ∷ tool_failed ∷ budget_exceeded ∷ cancelled ∷ []
transitions hypothesis =
    validation ∷ insufficient_evidence ∷ model_failed ∷ budget_exceeded ∷ cancelled ∷ []
transitions validation =
    security_review ∷ insufficient_evidence ∷ security_rejected ∷ model_failed ∷ cancelled ∷ []
transitions security_review = plan_composition ∷ security_rejected ∷ model_failed ∷ cancelled ∷ []
transitions plan_composition = critic_review ∷ model_failed ∷ budget_exceeded ∷ cancelled ∷ []
transitions critic_review =
    awaiting_approval ∷ revision_requested ∷ security_rejected ∷ model_failed ∷ cancelled ∷ []
transitions awaiting_approval = approved ∷ rejected ∷ revision_requested ∷ cancelled ∷ []
transitions revision_requested = plan_composition ∷ cancelled ∷ []
transitions approved = []
transitions rejected = []
transitions policy_blocked = []
transitions insufficient_evidence = context_building ∷ []
transitions cancelled = []
transitions timed_out = policy_check ∷ []
transitions model_failed = policy_check ∷ []
transitions tool_failed = context_building ∷ []
transitions budget_exceeded = []
transitions security_rejected = []

unfoldable pub assert_investigation_transition :
    InvestigationStatus
    → InvestigationStatus
    → Result (InvalidTransition InvestigationStatus) (Unit {0})
unfolding transitions
assert_investigation_transition from to =
    if from == to
    then ok tt
    else throw_if (not (contains (transitions from) to)) (invalid_transition from to)
