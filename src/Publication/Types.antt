-- ===== src/Publication/Types.antt =====
-- The values that publications are decided on (packages/publication/src/types.ts).
use coder_er.Base.{ℕ, Bool, List, Text, String, ◌≡◌, refl, some, [], ◌∷◌, get_elem?, Equality}
use coder_er.Base.Finite.{equality}

pub data NormalizedCheckStatus : Type 0 where
  queued running passed failed cancelled timed_out neutral stale : NormalizedCheckStatus

abbrev check_status_index : NormalizedCheckStatus → ℕ
check_status_index queued = 0
check_status_index running = 1
check_status_index passed = 2
check_status_index failed = 3
check_status_index cancelled = 4
check_status_index timed_out = 5
check_status_index neutral = 6
check_status_index stale = 7

abbrev check_statuses : List NormalizedCheckStatus
check_statuses = queued ∷ running ∷ passed ∷ failed ∷ cancelled ∷ timed_out ∷ neutral ∷ stale ∷ []

pub check_status_found :
    (s : NormalizedCheckStatus) → get_elem? check_statuses (check_status_index s) ≡ some s
check_status_found queued = refl
check_status_found _ = refl

instance abbrev pub check_status_equality : Equality NormalizedCheckStatus
check_status_equality =
    equality
      (record { index = check_status_index; members = check_statuses; found = check_status_found })

pub data ReviewState : Type 0 where
  pending approved changes_requested dismissed commented : ReviewState

abbrev review_state_index : ReviewState → ℕ
review_state_index pending = 0
review_state_index approved = 1
review_state_index changes_requested = 2
review_state_index dismissed = 3
review_state_index commented = 4

abbrev review_states : List ReviewState
review_states = pending ∷ approved ∷ changes_requested ∷ dismissed ∷ commented ∷ []

pub review_state_found : (s : ReviewState) → get_elem? review_states (review_state_index s) ≡ some s
review_state_found pending = refl
review_state_found _ = refl

instance abbrev pub review_state_equality : Equality ReviewState
review_state_equality =
    equality
      (record { index = review_state_index; members = review_states; found = review_state_found })

pub record PublicationPolicy : Type 0 where
  pub version : String
  pub allowed_base_branches : List Text
  pub recovery_branch_prefix : Text
  pub require_draft_pull_request : Bool
  pub allow_force_push : Bool
  pub allow_protected_branch_writes : Bool
  pub allow_automatic_merge : Bool
  pub required_checks : List String
  pub required_approvals : ℕ
  pub require_code_owner_approval : Bool
  pub maximum_publication_attempts : ℕ
  pub webhook_replay_window_seconds : ℕ
  pub post_merge_verification_required : Bool
  pub retention_days : ℕ

pub record ApprovedRecoveryPackage : Type 0 where
  pub recovery_id : String
  pub incident_id : String
  pub organization_id : String
  pub repository_id : String
  pub treatment_plan_id : String
  pub patch_version : ℕ
  pub base_commit_sha : Text
  pub patch_digest : Text
  pub tree_digest : Text
  pub branch_name : Text
  pub target_base_branch : Text
  pub publication_approval_count : ℕ
  pub publication_approved_at : String
  pub security_review_approved : Bool
  pub verification_passed : Bool
  pub pull_request_title : Text
  pub pull_request_body : Text

pub record Check : Type 0 where
  pub name : String
  pub status : NormalizedCheckStatus

pub record Review : Type 0 where
  pub actor_id : String
  pub state : ReviewState
  pub code_owner : Bool

pub record MergeReadinessInput : Type 0 where
  pub base_commit_current : Bool
  pub publication_integrity_valid : Bool
  pub required_checks : List Check
  pub reviews : List Review
  pub unresolved_blocking_threads : ℕ
  pub blocking_security_findings : ℕ
  pub pull_request_draft : Bool
