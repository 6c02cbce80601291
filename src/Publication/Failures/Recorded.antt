-- ===== src/Publication/Failures/Recorded.antt =====
-- Which failures of the pipeline the store accepts (failPublication after classifyPublicationFailure).
use coder_er.Publication.Lifecycle.{assert_publication_transition}
use coder_er.Base.{
  inl, inr, not, Bool, ◌⊎◌, ℕ, ◌≡◌, refl, true, false, String, none, List, [], ◌∷◌, contains, Text,
  ok, err, arith,
}
use coder_er.Publication.Status.{
  PublicationStatus, publication_status_equality, policy_check, commit_materializing,
  branch_publishing, draft_pr_creating, publication_blocked, push_failed, pr_creation_failed,
  cancelled,
}
use coder_er.Publication.Store.{
  PublicationRunState, transition_refused, holds_lease, check_change, failed, fail_publication,
}
use coder_er.Publication.Failures.{
  stage_failure_status, classify_response, FailureCode, PipelineError, publication_failure,
  api_error, plain_error, unknown_value, asks_cancel, cut, classify_publication_failure,
}

-- No `PublicationFailure`, and no message that asks for a cancellation.
abbrev is_ordinary : PipelineError → Bool
is_ordinary (publication_failure f message) = false
is_ordinary (api_error status message) = not (asks_cancel (cut message))
is_ordinary (plain_error message) = not (asks_cancel (cut message))
is_ordinary unknown_value = true

classify_response-status :
    (status : ℕ) (message : Text) (stage : PublicationStatus)
    → ((classify_response status message stage).status ≡ publication_blocked)
      ⊎ ((classify_response status message stage).status ≡ stage_failure_status stage)
unfolding classify_response
classify_response-status status message stage = ground arith

classify_publication_failure-status :
    (e : PipelineError) (stage : PublicationStatus)
    → is_ordinary e ≡ true
    → ((classify_publication_failure e stage).status ≡ publication_blocked)
      ⊎ ((classify_publication_failure e stage).status ≡ stage_failure_status stage)
unfolding classify_publication_failure
classify_publication_failure-status (publication_failure f message) stage h = cc
classify_publication_failure-status (api_error status message) stage h =
    ground (arith, classify_response-status status (cut message) stage)
classify_publication_failure-status (plain_error message) stage h = ground arith
classify_publication_failure-status unknown_value stage h = inr refl

abbrev pub working_statuses : List PublicationStatus
working_statuses = policy_check ∷ commit_materializing ∷ branch_publishing ∷ draft_pr_creating ∷ []

abbrev pub failed_statuses : List PublicationStatus
failed_statuses = publication_blocked ∷ push_failed ∷ pr_creation_failed ∷ []

fail_publication-recorded :
    (worker : String) (now : ℕ) (s : PublicationStatus) (code : FailureCode)
    (r : PublicationRunState)
    → holds_lease worker now r ≡ true
    → check_change r.status s ≡ ok tt
    → (r' : PublicationRunState) × (fail_publication worker now s code r ≡ ok r')
      × (r'.status ≡ s)
      × (r'.lease_owner ≡ none)
unfolding fail_publication
fail_publication-recorded worker now s code r held allowed =
    (failed now s code r, rw held (rw allowed refl), refl, refl)

stage_change :
    (stage : PublicationStatus)
    → contains working_statuses stage ≡ true
    → (check_change stage publication_blocked ≡ ok tt)
      × (check_change stage (stage_failure_status stage) ≡ ok tt)
      × (contains failed_statuses (stage_failure_status stage) ≡ true)
unfolding check_change assert_publication_transition
stage_change policy_check w = (refl, refl, refl)
stage_change commit_materializing w = (refl, refl, refl)
stage_change branch_publishing w = (refl, refl, refl)
stage_change draft_pr_creating w = (refl, refl, refl)
stage_change _ w = ground arith

accepted_change :
    (stage s : PublicationStatus)
    → contains working_statuses stage ≡ true
    → (s ≡ publication_blocked) ⊎ (s ≡ stage_failure_status stage)
    → (check_change stage s ≡ ok tt) × (contains failed_statuses s ≡ true)
accepted_change stage s w (inl e) = rw e ((stage_change stage w).0, refl)
accepted_change stage s w (inr e) =
    let (_, checked, listed) = stage_change stage w in rw e (checked, listed)

-- A failure while the worker holds the lease is recorded: for every error but a `PublicationFailure`
-- and one whose message asks for a cancellation, thrown at one of the four working statuses, the
-- store accepts the classified status, which is PUBLICATION_BLOCKED, PUSH_FAILED or
-- PR_CREATION_FAILED, and the lease is given up.
pub classify_publication_failure-recorded :
    (e : PipelineError) (worker : String) (now : ℕ) (r : PublicationRunState)
    → is_ordinary e ≡ true
    → contains working_statuses r.status ≡ true
    → holds_lease worker now r ≡ true
    → (r' : PublicationRunState) × (fail_publication worker now
          (classify_publication_failure e r.status).status
          (classify_publication_failure e r.status).code
          r
        ≡ ok r')
      × (contains failed_statuses r'.status ≡ true)
      × (r'.lease_owner ≡ none)
classify_publication_failure-recorded e worker now r ordinary working held =
    let c = classify_publication_failure e r.status in
    let (accepted, listed) =
      accepted_change r.status c.status working
        (classify_publication_failure-status e r.status ordinary) in
    let (r', done, status, free) =
      fail_publication-recorded worker now c.status c.code r held accepted in
    (r', done, rw status listed, free)

abbrev pub publishing_statuses : List PublicationStatus
publishing_statuses = commit_materializing ∷ branch_publishing ∷ draft_pr_creating ∷ []

cancel_refused :
    (s : PublicationStatus)
    → contains publishing_statuses s ≡ true
    → check_change s cancelled ≡ err transition_refused
unfolding check_change assert_publication_transition
cancel_refused commit_materializing h = refl
cancel_refused branch_publishing h = refl
cancel_refused draft_pr_creating h = refl
cancel_refused _ h = ground arith

-- A cancellation that the worker notices while it materializes the commit, publishes the branch or
-- opens the draft pull request is not recorded: the error is classified as CANCELLED, which the
-- table does not permit from these statuses, so the store throws.
pub classify_publication_failure-cancelled :
    (message : Text) (worker : String) (now : ℕ) (r : PublicationRunState)
    → asks_cancel (cut message) ≡ true
    → contains publishing_statuses r.status ≡ true
    → holds_lease worker now r ≡ true
    → fail_publication worker now
        (classify_publication_failure (plain_error message) r.status).status
        (classify_publication_failure (plain_error message) r.status).code
        r
      ≡ err transition_refused
unfolding fail_publication classify_publication_failure
classify_publication_failure-cancelled message worker now r asked publishing held =
    rw asked (rw held (rw (cancel_refused r.status publishing) refl))
