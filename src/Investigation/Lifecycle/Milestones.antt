-- ===== src/Investigation/Lifecycle/Milestones.antt =====
-- Every way to an approved treatment plan passes the critic and a person.
use coder_er.Base.{ℕ, zero, suc, ◌≤◌, ◌≡◌, refl, true, List, [], ◌∷◌, contains, ok, All, arith}
use coder_er.Base.Machine.{run, run-milestones}
use coder_er.Investigation.Status.{
  InvestigationStatus, investigation_status_finite, investigation_status_equality, approved,
  awaiting_approval, context_building, critic_review, hypothesis, insufficient_evidence, mapping,
  model_failed, plan_composition, policy_check, requested, revision_requested, security_review,
  timed_out, tool_failed, triage, validation,
}
use coder_er.Investigation.Lifecycle.{assert_investigation_transition}

-- How far a run has come, as the number of the last milestone that it need not repeat.
rank : InvestigationStatus → ℕ
rank policy_check = 1
rank context_building = 2
rank triage = 3
rank mapping = 4
rank hypothesis = 5
rank validation = 6
rank security_review = 7
rank plan_composition = 8
rank critic_review = 9
rank awaiting_approval = 10
rank approved = 11
rank revision_requested = 7
rank insufficient_evidence = 1
rank tool_failed = 1
rank _ = 0

milestone : ℕ → InvestigationStatus
milestone zero = requested
milestone (suc zero) = policy_check
milestone (suc (suc zero)) = context_building
milestone (suc (suc (suc zero))) = triage
milestone (suc (suc (suc (suc zero)))) = mapping
milestone (suc (suc (suc (suc (suc zero))))) = hypothesis
milestone (suc (suc (suc (suc (suc (suc zero)))))) = validation
milestone (suc (suc (suc (suc (suc (suc (suc zero))))))) = security_review
milestone (suc (suc (suc (suc (suc (suc (suc (suc zero)))))))) = plan_composition
milestone (suc (suc (suc (suc (suc (suc (suc (suc (suc zero))))))))) = critic_review
milestone (suc (suc (suc (suc (suc (suc (suc (suc (suc (suc zero)))))))))) = awaiting_approval
milestone _ = approved

abbrev pub composing_statuses : List InvestigationStatus
composing_statuses =
    requested ∷ policy_check ∷ revision_requested ∷ plan_composition ∷ timed_out ∷ model_failed
    ∷ tool_failed ∷ insufficient_evidence ∷ []

abbrev pub approval_milestones : List InvestigationStatus
approval_milestones = critic_review ∷ awaiting_approval ∷ approved ∷ []

starts_low : (s : InvestigationStatus) → contains composing_statuses s ≡ true → rank s ≤ 8
unfolding rank
starts_low requested h = omega arith
starts_low _ h = ground arith

-- From the request, from a requested revision, from the composition of a plan and from each failure
-- that permits a retry, a path of accepted changes to APPROVED asks for the review by the
-- independent critic, then has the plan await approval, and is approved last.
pub run-approved_milestones :
    (s : InvestigationStatus) (path : List InvestigationStatus)
    → contains composing_statuses s ≡ true
    → run assert_investigation_transition s path ≡ ok approved
    → All (λ gate. contains path gate ≡ true) approval_milestones
unfolding rank milestone assert_investigation_transition
run-approved_milestones s path start h =
    let low = starts_low s start in
    run-milestones investigation_status_finite assert_investigation_transition rank milestone refl s
      approved path (9 ∷ 10 ∷ 11 ∷ []) h (omega arith)
