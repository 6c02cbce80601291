-- ===== src/Investigation/Status.antt =====
-- The statuses of an investigation (packages/contracts/src/index.ts).
use coder_er.Base.{ℕ, ◌≡◌, refl, some, List, [], ◌∷◌, get_elem?, Equality}
use coder_er.Base.Finite.{Finite, equality}

pub data InvestigationStatus : Type 0 where
  requested policy_check context_building triage mapping hypothesis validation security_review
        plan_composition critic_review awaiting_approval approved rejected revision_requested
        policy_blocked insufficient_evidence cancelled timed_out model_failed tool_failed
        budget_exceeded security_rejected :
      InvestigationStatus

abbrev index : InvestigationStatus → ℕ
index requested = 0
index policy_check = 1
index context_building = 2
index triage = 3
index mapping = 4
index hypothesis = 5
index validation = 6
index security_review = 7
index plan_composition = 8
index critic_review = 9
index awaiting_approval = 10
index approved = 11
index rejected = 12
index revision_requested = 13
index policy_blocked = 14
index insufficient_evidence = 15
index cancelled = 16
index timed_out = 17
index model_failed = 18
index tool_failed = 19
index budget_exceeded = 20
index security_rejected = 21

abbrev members : List InvestigationStatus
members =
    requested ∷ policy_check ∷ context_building ∷ triage ∷ mapping ∷ hypothesis ∷ validation
    ∷ security_review ∷ plan_composition ∷ critic_review ∷ awaiting_approval ∷ approved ∷ rejected
    ∷ revision_requested ∷ policy_blocked ∷ insufficient_evidence ∷ cancelled ∷ timed_out
    ∷ model_failed ∷ tool_failed ∷ budget_exceeded ∷ security_rejected ∷ []

pub found : (s : InvestigationStatus) → get_elem? members (index s) ≡ some s
found requested = refl
found _ = refl

abbrev pub investigation_status_finite : Finite InvestigationStatus
investigation_status_finite = record { index = index; members = members; found = found }

instance abbrev pub investigation_status_equality : Equality InvestigationStatus
investigation_status_equality = equality investigation_status_finite
