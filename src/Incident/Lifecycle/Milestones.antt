-- ===== src/Incident/Lifecycle/Milestones.antt =====
-- Every way to a verified incident passes triage, investigation, recovery and verification.
use coder_er.Base.{ℕ, zero, suc, ◌≤◌, ◌≡◌, refl, true, List, [], ◌∷◌, contains, ok, All, arith}
use coder_er.Base.Machine.{run, run-milestones}
use coder_er.Incident.Status.{
  IncidentStatus, incident_status_finite, incident_status_equality, admitted, awaiting_approval,
  failed, investigating, recovering, triaging, verified, verifying,
}
use coder_er.Incident.Lifecycle.{assert_incident_transition}

-- How far a run has come, as the number of the last milestone that it need not repeat.
rank : IncidentStatus → ℕ
rank triaging = 1
rank investigating = 2
rank recovering = 3
rank verifying = 4
rank verified = 5
rank awaiting_approval = 2
rank _ = 0

milestone : ℕ → IncidentStatus
milestone zero = admitted
milestone (suc zero) = triaging
milestone (suc (suc zero)) = investigating
milestone (suc (suc (suc zero))) = recovering
milestone (suc (suc (suc (suc zero)))) = verifying
milestone _ = verified

abbrev pub opening_statuses : List IncidentStatus
opening_statuses = admitted ∷ failed ∷ []

abbrev pub verification_milestones : List IncidentStatus
verification_milestones = triaging ∷ investigating ∷ recovering ∷ verifying ∷ verified ∷ []

starts_low : (s : IncidentStatus) → contains opening_statuses s ≡ true → rank s ≤ 0
unfolding rank
starts_low admitted h = omega arith
starts_low _ h = ground arith

-- An incident that is admitted, or has failed, becomes VERIFIED only along a path of permitted
-- changes that asks for triage, investigation, recovery and verification.
pub run-verified_milestones :
    (s : IncidentStatus) (path : List IncidentStatus)
    → contains opening_statuses s ≡ true
    → run assert_incident_transition s path ≡ ok verified
    → All (λ gate. contains path gate ≡ true) verification_milestones
unfolding rank milestone assert_incident_transition
run-verified_milestones s path start h =
    let low = starts_low s start in
    run-milestones incident_status_finite assert_incident_transition rank milestone refl s verified
      path (1 ∷ 2 ∷ 3 ∷ 4 ∷ 5 ∷ []) h (omega arith)
