-- ===== src/Incident/Status.antt =====
-- The statuses of an incident (packages/contracts/src/index.ts).
use coder_er.Base.{ℕ, ◌≡◌, refl, some, List, [], ◌∷◌, get_elem?, Equality}
use coder_er.Base.Finite.{Finite, equality}

pub data IncidentStatus : Type 0 where
  admitted triaging investigating awaiting_approval recovering verifying verified failed cancelled :
      IncidentStatus

abbrev index : IncidentStatus → ℕ
index admitted = 0
index triaging = 1
index investigating = 2
index awaiting_approval = 3
index recovering = 4
index verifying = 5
index verified = 6
index failed = 7
index cancelled = 8

abbrev members : List IncidentStatus
members =
    admitted ∷ triaging ∷ investigating ∷ awaiting_approval ∷ recovering ∷ verifying ∷ verified
    ∷ failed ∷ cancelled ∷ []

pub found : (s : IncidentStatus) → get_elem? members (index s) ≡ some s
found admitted = refl
found _ = refl

abbrev pub incident_status_finite : Finite IncidentStatus
incident_status_finite = record { index = index; members = members; found = found }

instance abbrev pub incident_status_equality : Equality IncidentStatus
incident_status_equality = equality incident_status_finite
