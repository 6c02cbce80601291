-- ===== src/Publication/Failures/Stages.antt =====
-- Which statuses have a stage of the pipeline left.
use coder_er.Base.{◌<◌, ◌≡◌, ◌↔◌, true, contains, arith}
use coder_er.Publication.Status.{
  PublicationStatus, publication_status_equality, publication_requested,
}
use coder_er.Publication.Store.{executable_publication_statuses}
use coder_er.Publication.Failures.{publication_execution_stage}

-- The statuses at which a run may be claimed are exactly those from which the pipeline has a stage
-- left to execute.
pub publication_execution_stage_iff :
    (s : PublicationStatus)
    → (publication_execution_stage s < 5) ↔ (contains executable_publication_statuses s ≡ true)
unfolding publication_execution_stage
publication_execution_stage_iff publication_requested = ground arith
publication_execution_stage_iff _ = ground arith
