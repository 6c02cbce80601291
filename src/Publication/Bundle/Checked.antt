-- ===== src/Publication/Bundle/Checked.antt =====
-- What a bundle that passes the checks is known to satisfy, and how a refusal may be recorded.
use coder_er.Base.{
  ℕ, ◌≤◌, ◌≡◌, ◌≢◌, refl, sym, ◌∙◌, All, ◌↔◌, Bool, true, false, not, ◌||◌, String, Option, none,
  some, List, [], ◌∷◌, Text, contains, starts_with, ◌==◌, nat_equality, list_equality,
  string_equality, Result, ok, ◌>>◌, throw_if, arith, ltb,
}
use coder_er.Publication.Status.{publication_blocked, base_branch_stale, security_blocked}
use coder_er.Publication.Bundle.{
  PublicationExecutionBundle, unix_newlines, is_value, is_version, present, PublicationFailure,
  failure, approval_missing, attempts_exceeded, base_stale, patch_digest_mismatch,
  patch_version_stale, policy_base_branch, policy_branch_prefix, policy_protected_branch,
  policy_unsafe_write, recovery_not_publishable, security_review_rejected, verification_incomplete,
  verify_publication_bundle,
}

pub record IsPublishable (sha256 : Text → Text) (b : PublicationExecutionBundle) : Type 0 where
  pub recovery_ready : b.recovery_status ≡ "READY_TO_PUBLISH"
  pub recovery_version : b.recovery_patch_version ≡ some b.publication.approved_patch_version
  pub patch_version : b.patch_version ≡ b.publication.approved_patch_version
  pub base : b.recovery_base_commit_sha ≡ b.publication.base_commit_sha
  pub digest : sha256 (unix_newlines b.unified_diff) ≡ b.publication.patch_digest
  pub stored : b.stored_patch_digest ≡ b.publication.patch_digest
  pub base_allowed : contains b.policy.allowed_base_branches b.publication.base_branch ≡ true
  pub prefixed : starts_with b.publication.head_branch b.policy.recovery_branch_prefix ≡ true
  pub not_base : b.publication.head_branch ≢ b.publication.base_branch
  pub no_force : b.policy.allow_force_push ≡ false
  pub no_protected : b.policy.allow_protected_branch_writes ≡ false
  pub attempts : b.publication.attempt_count ≤ b.policy.maximum_publication_attempts
  pub approved : 1 ≤ b.approved_count
  pub approved_at : present b.latest_approved_at ≡ true
  pub verified : b.verification_status ≡ some "PASSED"
  pub reviewed : b.security_decision ≡ some "ALLOW"

-- The guards in their order, each with what it throws.
abbrev Guards : Type 0
Guards = List (Bool × PublicationFailure)

first_failure : Guards → Result PublicationFailure (Unit {0})
first_failure [] = ok tt
first_failure ((test, e) ∷ gs) = throw_if test e >> first_failure gs

first_failure_iff :
    (gs : Guards)
    → (first_failure gs ≡ ok tt) ↔ All (λ (g : Bool × PublicationFailure). g.0 ≡ false) gs
unfolding first_failure
first_failure_iff [] = (λ h. tt, λ h. refl)
first_failure_iff ((true, e) ∷ gs) = (λ h. cc, λ (h, _). cc)
first_failure_iff ((false, e) ∷ gs) =
    (λ h. (refl, (first_failure_iff gs).0 h), λ (_, h). (first_failure_iff gs).1 h)

is_value_iff : (o : Option String) (s : String) → (is_value o s ≡ true) ↔ (o ≡ some s)
is_value_iff none s = (λ h. cc, λ h. cc)
is_value_iff (some t) s = ground (arith, string_equality.beq_iff t s)

is_version_iff : (o : Option ℕ) (n : ℕ) → (is_version o n ≡ true) ↔ (o ≡ some n)
is_version_iff none n = (λ h. cc, λ h. cc)
is_version_iff (some m) n = ground arith

text_iff : (s t : Text) → ((s == t) ≡ true) ↔ (s ≡ t)
text_iff = list_equality.beq_iff

module _ (sha256 : Text → Text) where
  guards : PublicationExecutionBundle → Guards
  guards b =
      (
        not (b.recovery_status == "READY_TO_PUBLISH"),
        failure publication_blocked recovery_not_publishable,
      )
      ∷ (
        not (is_version b.recovery_patch_version b.publication.approved_patch_version)
            || not (b.patch_version == b.publication.approved_patch_version),
        failure publication_blocked patch_version_stale,
      )
      ∷ (
        not (b.recovery_base_commit_sha == b.publication.base_commit_sha),
        failure base_branch_stale base_stale,
      )
      ∷ (
        not (sha256 (unix_newlines b.unified_diff) == b.stored_patch_digest)
            || not (b.stored_patch_digest == b.publication.patch_digest),
        failure publication_blocked patch_digest_mismatch,
      )
      ∷ (
        not (contains b.policy.allowed_base_branches b.publication.base_branch),
        failure security_blocked policy_base_branch,
      )
      ∷ (
        not (starts_with b.publication.head_branch b.policy.recovery_branch_prefix),
        failure security_blocked policy_branch_prefix,
      )
      ∷ (
        b.publication.head_branch == b.publication.base_branch,
        failure security_blocked policy_protected_branch,
      )
      ∷ (
        b.policy.allow_force_push || b.policy.allow_protected_branch_writes,
        failure security_blocked policy_unsafe_write,
      )
      ∷ (
        ltb b.policy.maximum_publication_attempts b.publication.attempt_count,
        failure publication_blocked attempts_exceeded,
      )
      ∷ (
        ltb b.approved_count 1 || not (present b.latest_approved_at),
        failure publication_blocked approval_missing,
      )
      ∷ (
        not (is_value b.verification_status "PASSED"),
        failure publication_blocked verification_incomplete,
      )
      ∷ (
        not (is_value b.security_decision "ALLOW"),
        failure security_blocked security_review_rejected,
      )
      ∷ []

  verify-guards :
      (b : PublicationExecutionBundle)
      → verify_publication_bundle sha256 b ≡ first_failure (guards b)
  unfolding verify_publication_bundle first_failure guards
  verify-guards b = refl

  guards_iff :
      (b : PublicationExecutionBundle)
      → All (λ (g : Bool × PublicationFailure). g.0 ≡ false) (guards b) ↔ IsPublishable sha256 b
  unfolding guards
  guards_iff b = (
    λ h. record {
      recovery_ready =
          ground (arith, h.0, string_equality.beq_iff b.recovery_status "READY_TO_PUBLISH");
      recovery_version = ground (
        arith,
        h.1.0,
        is_version_iff b.recovery_patch_version b.publication.approved_patch_version,
      );
      patch_version = ground (arith, h.1.0);
      base =
          ground
            (arith, h.1.1.0, text_iff b.recovery_base_commit_sha b.publication.base_commit_sha);
      digest = ground (
        arith,
        h.1.1.1.0,
        text_iff (sha256 (unix_newlines b.unified_diff)) b.stored_patch_digest,
        text_iff b.stored_patch_digest b.publication.patch_digest,
      );
      stored = ground (arith, h.1.1.1.0, text_iff b.stored_patch_digest b.publication.patch_digest);
      base_allowed = ground (arith, h.1.1.1.1.0);
      prefixed = ground (arith, h.1.1.1.1.1.0);
      not_base =
          ground
            (arith, h.1.1.1.1.1.1.0, text_iff b.publication.head_branch b.publication.base_branch);
      no_force = ground (arith, h.1.1.1.1.1.1.1.0);
      no_protected = ground (arith, h.1.1.1.1.1.1.1.0);
      attempts = ground (arith, h.1.1.1.1.1.1.1.1.0);
      approved = ground (arith, h.1.1.1.1.1.1.1.1.1.0);
      approved_at = ground (arith, h.1.1.1.1.1.1.1.1.1.0);
      verified =
          ground (arith, h.1.1.1.1.1.1.1.1.1.1.0, is_value_iff b.verification_status "PASSED");
      reviewed =
          ground (arith, h.1.1.1.1.1.1.1.1.1.1.1.0, is_value_iff b.security_decision "ALLOW");
    },
    λ r. (
      ground (arith, string_equality.beq_iff b.recovery_status "READY_TO_PUBLISH"),
      (
        ground
            (arith, is_version_iff b.recovery_patch_version b.publication.approved_patch_version),
        (
          ground (arith, text_iff b.recovery_base_commit_sha b.publication.base_commit_sha),
          (
            ground (
              arith,
              text_iff (sha256 (unix_newlines b.unified_diff)) b.stored_patch_digest,
              text_iff b.stored_patch_digest b.publication.patch_digest,
            ),
            (
              ground (arith),
              (
                ground (arith),
                (
                  ground (arith, text_iff b.publication.head_branch b.publication.base_branch),
                  (
                    ground (arith),
                    (
                      ground (arith),
                      (
                        ground (arith),
                        (
                          ground (arith, is_value_iff b.verification_status "PASSED"),
                          (ground (arith, is_value_iff b.security_decision "ALLOW"), tt),
                        ),
                      ),
                    ),
                  ),
                ),
              ),
            ),
          ),
        ),
      ),
    ),
  )

  -- A bundle passes the checks exactly when everything that was approved still holds of it.
  pub verify_publication_bundle_iff :
      (b : PublicationExecutionBundle)
      → (verify_publication_bundle sha256 b ≡ ok tt) ↔ IsPublishable sha256 b
  verify_publication_bundle_iff b =
      let sequence = first_failure_iff (guards b) in
      (
        λ h. (guards_iff b).0 (sequence.0 (sym (verify-guards b) ∙ h)),
        λ r. verify-guards b ∙ sequence.1 ((guards_iff b).1 r),
      )
