-- ===== src/Publication/Bundle.antt =====
-- The checks that are made anew before a publication is executed
-- (packages/publication/src/execution.ts). SHA-256 is a parameter: it is Node's.
pub mod Checked
use coder_er.Base.{
  ℕ, ◌<◌, Bool, true, false, not, ◌&&◌, ◌||◌, String, Option, none, some, List, [], ◌∷◌, Text,
  codes, ltb, contains, starts_with, ◌==◌, nat_equality, list_equality, string_equality,
  if◌then◌else◌, Result, ok, err, ◌>>=◌, ◌>>◌, throw_if,
}
use coder_er.Publication.Status.{
  PublicationStatus, publication_blocked, base_branch_stale, security_blocked,
}
use coder_er.Publication.Types.{PublicationPolicy}

-- The failure codes that the pipeline's checks throw, with the status that each asks for.
pub data FailureCode : Type 0 where
  recovery_not_publishable patch_version_stale base_stale patch_digest_mismatch policy_base_branch :
      FailureCode
  policy_branch_prefix policy_protected_branch policy_unsafe_write attempts_exceeded : FailureCode
  approval_missing verification_incomplete security_review_rejected : FailureCode
  publication_cancelled forbidden not_found conflict validation_failed github_unavailable :
      FailureCode
  execution_failed : FailureCode

pub record PublicationFailure : Type 0 where
  pub failure_status : PublicationStatus
  pub failure_code : FailureCode

abbrev pub failure : PublicationStatus → FailureCode → PublicationFailure
failure status code = record { failure_status = status; failure_code = code }

pub record PublicationRow : Type 0 where
  pub approved_patch_version : ℕ
  pub base_commit_sha : Text
  pub patch_digest : Text
  pub base_branch : Text
  pub head_branch : Text
  pub attempt_count : ℕ

-- The fields of the bundle that the checks read.
pub record PublicationExecutionBundle : Type 0 where
  pub publication : PublicationRow
  pub recovery_status : String
  pub recovery_patch_version : Option ℕ
  pub recovery_base_commit_sha : Text
  pub patch_version : ℕ
  pub unified_diff : Text
  pub stored_patch_digest : Text
  pub approved_count : ℕ
  pub latest_approved_at : Option String
  pub security_decision : Option String
  pub verification_status : Option String
  pub policy : PublicationPolicy

-- `replace(/\r\n/g, '\n')`.
abbrev pub unix_newlines : Text → Text
unix_newlines [] = []
unix_newlines (c ∷ []) = c ∷ []
unix_newlines (c ∷ d ∷ s) =
    let rest = unix_newlines (d ∷ s) in if c == 13 && d == 10 then rest else c ∷ rest

abbrev pub is_value : Option String → String → Bool
is_value none s = false
is_value (some t) s = t == s

abbrev pub is_version : Option ℕ → ℕ → Bool
is_version none n = false
is_version (some m) n = m == n

abbrev pub present : Option String → Bool
present none = false
present (some s) = not (s == "")

module _ (sha256 : Text → Text) where
  unfoldable pub verify_publication_bundle :
      PublicationExecutionBundle → Result PublicationFailure (Unit {0})
  verify_publication_bundle b = do
    throw_if (not (b.recovery_status == "READY_TO_PUBLISH"))
        (failure publication_blocked recovery_not_publishable)
    throw_if
        (not (is_version b.recovery_patch_version b.publication.approved_patch_version)
          || not (b.patch_version == b.publication.approved_patch_version))
        (failure publication_blocked patch_version_stale)
    throw_if (not (b.recovery_base_commit_sha == b.publication.base_commit_sha))
        (failure base_branch_stale base_stale)
    throw_if
        (not (sha256 (unix_newlines b.unified_diff) == b.stored_patch_digest)
          || not (b.stored_patch_digest == b.publication.patch_digest))
        (failure publication_blocked patch_digest_mismatch)
    throw_if (not (contains b.policy.allowed_base_branches b.publication.base_branch))
        (failure security_blocked policy_base_branch)
    throw_if (not (starts_with b.publication.head_branch b.policy.recovery_branch_prefix))
        (failure security_blocked policy_branch_prefix)
    throw_if (b.publication.head_branch == b.publication.base_branch)
        (failure security_blocked policy_protected_branch)
    throw_if (b.policy.allow_force_push || b.policy.allow_protected_branch_writes)
        (failure security_blocked policy_unsafe_write)
    throw_if (ltb b.policy.maximum_publication_attempts b.publication.attempt_count)
        (failure publication_blocked attempts_exceeded)
    throw_if (ltb b.approved_count 1 || not (present b.latest_approved_at))
        (failure publication_blocked approval_missing)
    throw_if (not (is_value b.verification_status "PASSED"))
        (failure publication_blocked verification_incomplete)
    throw_if (not (is_value b.security_decision "ALLOW"))
        (failure security_blocked security_review_rejected)
    ok tt
