-- ===== src/Publication/Failures.antt =====
-- How an error of the execution pipeline is classified, and where a retry takes up the work
-- (packages/publication/src/execution.ts).
pub mod Recorded
pub mod Stages
use coder_er.Base.{
  ℕ, Bool, ◌||◌, Text, codes, lower, includes_text, leb, take, ◌==◌, nat_equality, if◌then◌else◌,
}
use coder_er.Publication.Status.{
  PublicationStatus, publication_requested, policy_check, commit_materializing, branch_publishing,
  draft_pr_creating, publication_blocked, push_failed, pr_creation_failed, cancelled,
}
use coder_er.Publication.Bundle.{
  PublicationFailure, FailureCode, publication_cancelled, forbidden, not_found, conflict,
  validation_failed, github_unavailable, execution_failed,
}

-- What the pipeline may throw; a value that is no `Error` has no message.
pub data PipelineError : Type 0 where
  publication_failure : PublicationFailure → Text → PipelineError
  api_error : ℕ → Text → PipelineError
  plain_error : Text → PipelineError
  unknown_value : PipelineError

pub record Classified : Type 0 where
  pub status : PublicationStatus
  pub code : FailureCode
  pub message : Text

abbrev pub stage_failure_status : PublicationStatus → PublicationStatus
stage_failure_status branch_publishing = push_failed
stage_failure_status draft_pr_creating = pr_creation_failed
stage_failure_status _ = publication_blocked

abbrev classified : PublicationStatus → FailureCode → Text → Classified
classified status code message = record { status = status; code = code; message = message }

abbrev pub cut : Text → Text
cut message = take 2000 message

-- `/cancel/i`.
abbrev pub asks_cancel : Text → Bool
asks_cancel message = includes_text (lower message) (codes "cancel")

classify_response : ℕ → Text → PublicationStatus → Classified
classify_response status message stage =
    if status == 401 || status == 403
    then classified publication_blocked forbidden message
    else if status == 404
    then classified publication_blocked not_found message
    else if status == 409
    then classified (stage_failure_status stage) conflict message
    else if status == 422
    then classified (stage_failure_status stage) validation_failed message
    else if leb 500 status
    then classified (stage_failure_status stage) github_unavailable message
    else classified (stage_failure_status stage) execution_failed message

abbrev cancelled_or : Text → Classified → Classified
cancelled_or message other =
    if asks_cancel message then classified cancelled publication_cancelled message else other

unfoldable pub classify_publication_failure : PipelineError → PublicationStatus → Classified
unfolding classify_response
classify_publication_failure (publication_failure f message) stage =
    classified f.failure_status f.failure_code (cut message)
classify_publication_failure (api_error status message) stage =
    cancelled_or (cut message) (classify_response status (cut message) stage)
classify_publication_failure (plain_error message) stage =
    cancelled_or (cut message)
      (classified (stage_failure_status stage) execution_failed (cut message))
classify_publication_failure unknown_value stage =
    classified (stage_failure_status stage) execution_failed (codes "Unknown publication failure.")

unfoldable pub publication_execution_stage : PublicationStatus → ℕ
publication_execution_stage publication_requested = 0
publication_execution_stage policy_check = 1
publication_execution_stage commit_materializing = 2
publication_execution_stage branch_publishing = 3
publication_execution_stage push_failed = 3
publication_execution_stage draft_pr_creating = 4
publication_execution_stage pr_creation_failed = 4
publication_execution_stage _ = 5
