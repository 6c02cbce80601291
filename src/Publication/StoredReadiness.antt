-- ===== src/Publication/StoredReadiness.antt =====
-- Readiness from the stored rows (packages/publication/src/merge-closure.ts,
-- packages/database/src/merge-closure-store.ts). A row that is not found is `none`.
pub mod Owners
use coder_er.Base.{
  ℕ, ◌+◌, String, Bool, true, false, not, ◌&&◌, ◌||◌, Option, none, some, List, [], ◌∷◌, ◌++◌, map,
  all, find, ◌==◌, string_equality, if◌then◌else◌, Result, ok, err, ◌>>=◌, ◌>>◌,
}
use coder_er.Base.Dict
use coder_er.Base.Dict.{Dict}
use coder_er.Base.Machine.{InvalidTransition}
use coder_er.Publication.Status.{
  PublicationStatus, publication_status_equality, merged, post_merge_verifying, recovery_confirmed,
  closed, post_merge_failed,
}
use coder_er.Publication.Lifecycle.{assert_publication_transition}
use coder_er.Publication.Types.{
  NormalizedCheckStatus, ReviewState, PublicationPolicy, Check, Review, MergeReadinessInput,
  check_status_equality,
}
use coder_er.Publication.Checks.{
  MergeReadinessDecision, evaluate_merge_readiness, push_if, is_empty, status_accepted,
}

pub record ReadinessRows : Type 0 where
  pub base_commit_current : Bool
  pub publication_integrity_valid : Bool
  pub checks : List Check
  pub reviews : List Review
  pub unresolved_blocking_threads : ℕ
  pub pull_request_draft : Bool

unfoldable pub to_merge_readiness_input : ReadinessRows → MergeReadinessInput
to_merge_readiness_input rows = record {
  base_commit_current = rows.base_commit_current;
  publication_integrity_valid = rows.publication_integrity_valid;
  required_checks = rows.checks;
  reviews = rows.reviews;
  unresolved_blocking_threads = rows.unresolved_blocking_threads;
  blocking_security_findings = 0;
  pull_request_draft = rows.pull_request_draft;
}

-- The columns of the stored rows that readiness is decided on.
pub record StoredReview : Type 0 where
  pub reviewer_login : String
  pub state : ReviewState

pub record PullRequestRow : Type 0 where
  pub base_sha : String
  pub draft : Bool

pub record RunRow : Type 0 where
  pub id : String
  pub incident_id : String
  pub status : PublicationStatus
  pub version : ℕ
  pub base_commit_sha : String
  pub patch_digest : String

abbrev pub stored_review : StoredReview → Review
stored_review r = record { actor_id = r.reviewer_login; state = r.state; code_owner = false }

abbrev base_current : RunRow → Option PullRequestRow → Bool
base_current run none = true
base_current run (some pull) = pull.base_sha == run.base_commit_sha

abbrev digest_intact : RunRow → Option String → Bool
digest_intact run none = true
digest_intact run (some digest) = digest == run.patch_digest

abbrev draft_flag : Option PullRequestRow → Bool
draft_flag none = false
draft_flag (some pull) = pull.draft

-- The input that `evaluateAndPersistMergeReadiness` assembles, and its decision.
unfoldable pub stored_merge_readiness :
    RunRow
    → PublicationPolicy
    → List Check
    → List StoredReview
    → Option PullRequestRow
    → Option String
    → MergeReadinessDecision
unfolding to_merge_readiness_input
stored_merge_readiness run policy checks reviews pull published_digest =
    evaluate_merge_readiness
      (to_merge_readiness_input (record {
        base_commit_current = base_current run pull;
        publication_integrity_valid = digest_intact run published_digest;
        checks = checks;
        reviews = map stored_review reviews;
        unresolved_blocking_threads = 0;
        pull_request_draft = draft_flag pull;
      }))
      policy
