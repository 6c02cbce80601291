-- ===== src/Investigation/Lifecycle/Terminal.antt =====
-- What an investigation that is reported terminal may still do.
use coder_er.Base.{◌≡◌, refl, ◌⊎◌, true, List, [], ◌∷◌, contains, ok}
use coder_er.Base.Machine.{check-leaves}
use coder_er.Investigation.Status.{
  InvestigationStatus, investigation_status_finite, investigation_status_equality, policy_check,
  context_building,
}
use coder_er.Investigation.Lifecycle.{
  is_terminal_investigation_status, assert_investigation_transition,
}

abbrev pub resume_statuses : List InvestigationStatus
resume_statuses = policy_check ∷ context_building ∷ []

-- An investigation at a terminal status changes, if it changes, to the policy check or to the
-- building of its context, and to nothing later.
pub assert_investigation_transition-terminal :
    (s t : InvestigationStatus)
    → is_terminal_investigation_status s ≡ true
    → assert_investigation_transition s t ≡ ok tt
    → (t ≡ s) ⊎ (contains resume_statuses t ≡ true)
unfolding assert_investigation_transition is_terminal_investigation_status
assert_investigation_transition-terminal s t ended h =
    check-leaves investigation_status_finite assert_investigation_transition
      is_terminal_investigation_status (contains resume_statuses) s t refl ended h
