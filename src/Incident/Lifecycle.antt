-- ===== src/Incident/Lifecycle.antt =====
-- Which status changes an incident may make (packages/incidents/src/index.ts).
pub mod Milestones
use coder_er.Base.{Bool, not, List, [], ◌∷◌, ◌==◌, contains, Result, ok, throw_if, if◌then◌else◌}
use coder_er.Base.Machine.{InvalidTransition, invalid_transition}
use coder_er.Incident.Status.{
  IncidentStatus, admitted, triaging, investigating, awaiting_approval, recovering, verifying,
  verified, failed, cancelled, incident_status_equality,
}

-- The table of permitted changes.
unfoldable pub transitions : IncidentStatus → List IncidentStatus
transitions admitted = triaging ∷ cancelled ∷ failed ∷ []
transitions triaging = investigating ∷ failed ∷ cancelled ∷ []
transitions investigating = awaiting_approval ∷ recovering ∷ failed ∷ cancelled ∷ []
transitions awaiting_approval = recovering ∷ cancelled ∷ failed ∷ []
transitions recovering = verifying ∷ failed ∷ cancelled ∷ []
transitions verifying = verified ∷ recovering ∷ failed ∷ []
transitions verified = []
transitions failed = triaging ∷ cancelled ∷ []
transitions cancelled = []

unfoldable pub assert_incident_transition :
    IncidentStatus → IncidentStatus → Result (InvalidTransition IncidentStatus) (Unit {0})
unfolding transitions
assert_incident_transition from to =
    throw_if (not (contains (transitions from) to)) (invalid_transition from to)
