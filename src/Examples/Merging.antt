-- ===== src/Examples/Merging.antt =====
-- Readiness for a merge, the checks before a publication and the verification after a merge, at
-- concrete inputs.
use coder_er.Base.{◌≡◌, refl, ◌↔◌, true, false, codes, Option, none, some, List, [], ◌∷◌, ok}
use coder_er.Publication.Status.{PublicationStatus}
use coder_er.Publication.Types.{
  PublicationPolicy, Check, ReviewState, NormalizedCheckStatus, MergeReadinessInput,
}
use coder_er.Publication.Checks.{evaluate_merge_readiness}
use coder_er.Publication.Checks.Readiness.{evaluate_merge_readiness_iff, IsReady}
use coder_er.Publication.Bundle.{PublicationExecutionBundle, verify_publication_bundle}
use coder_er.Publication.Bundle.Checked.{verify_publication_bundle_iff, IsPublishable}
use coder_er.Publication.StoredReadiness.{RunRow, StoredReview, stored_merge_readiness}
use coder_er.Publication.StoredReadiness.Owners.{stored_merge_readiness-code_owner}
use coder_er.Publication.MergeClosure.{
  PostMergeVerificationInput, decide_post_merge_verification, Observation, ClosureStore,
  post_merge_input, apply_post_merge_verification,
}
use coder_er.Publication.MergeClosure.Outcome.{apply_post_merge_verification-merged, Settles}

abbrev policy : PublicationPolicy
policy = record {
  version = "v1";
  allowed_base_branches = codes "main" ∷ [];
  recovery_branch_prefix = codes "codeer/";
  require_draft_pull_request = true;
  allow_force_push = false;
  allow_protected_branch_writes = false;
  allow_automatic_merge = false;
  required_checks = "ci" ∷ [];
  required_approvals = 1;
  require_code_owner_approval = true;
  maximum_publication_attempts = 3;
  webhook_replay_window_seconds = 300;
  post_merge_verification_required = true;
  retention_days = 30;
}

abbrev green : List Check
green = record { name = "ci"; status = NormalizedCheckStatus.passed } ∷ []

abbrev reviewed_input : MergeReadinessInput
reviewed_input = record {
  base_commit_current = true;
  publication_integrity_valid = true;
  required_checks = green;
  reviews =
      record { actor_id = "ada"; state = ReviewState.changes_requested; code_owner = true }
      ∷ record { actor_id = "ada"; state = ReviewState.approved; code_owner = true }
      ∷ [];
  unresolved_blocking_threads = 0;
  blocking_security_findings = 0;
  pull_request_draft = true;
}

evaluate_merge_readiness_iff_example :
    ((evaluate_merge_readiness reviewed_input policy).ready ≡ true) ↔ IsReady reviewed_input policy
evaluate_merge_readiness_iff_example = evaluate_merge_readiness_iff reviewed_input policy

abbrev run_row : RunRow
run_row = record {
  id = "p1";
  incident_id = "i1";
  status = PublicationStatus.merged;
  version = 9;
  base_commit_sha = "b0";
  patch_digest = "d0";
}

abbrev stored_reviews : List StoredReview
stored_reviews = record { reviewer_login = "ada"; state = ReviewState.approved } ∷ []

stored_merge_readiness-code_owner_example :
    (stored_merge_readiness run_row policy green stored_reviews none (some "d0")).ready ≡ false
stored_merge_readiness-code_owner_example =
    stored_merge_readiness-code_owner run_row policy green stored_reviews none (some "d0") refl

abbrev bundle : PublicationExecutionBundle
bundle = record {
  publication = record {
    approved_patch_version = 2;
    base_commit_sha = codes "b0";
    patch_digest = codes "diff";
    base_branch = codes "main";
    head_branch = codes "codeer/fix";
    attempt_count = 1;
  };
  recovery_status = "READY_TO_PUBLISH";
  recovery_patch_version = some 2;
  recovery_base_commit_sha = codes "b0";
  patch_version = 2;
  unified_diff = codes "diff";
  stored_patch_digest = codes "diff";
  approved_count = 1;
  latest_approved_at = some "2026-01-01";
  security_decision = some "ALLOW";
  verification_status = some "PASSED";
  policy = policy;
}

verify_publication_bundle_iff_example :
    (verify_publication_bundle (λ t. t) bundle ≡ ok tt) ↔ IsPublishable (λ t. t) bundle
verify_publication_bundle_iff_example = verify_publication_bundle_iff (λ t. t) bundle

verify_publication_bundle-accepts : verify_publication_bundle (λ t. t) bundle ≡ ok tt
unfolding verify_publication_bundle
verify_publication_bundle-accepts = refl

abbrev observation : Option Observation
observation = some (record { merge_commit_sha = "m1"; approved_head_sha = "h1" })

abbrev observed_input : PostMergeVerificationInput
unfolding post_merge_input
observed_input = post_merge_input policy observation green (some "h1") true

abbrev closure_store : ClosureStore
closure_store = record { run = run_row; verifications = []; events = []; closures = [] }

apply_post_merge_verification-merged_example :
    (after : ClosureStore) × (apply_post_merge_verification policy observation green
        (some "h1")
        true
        closure_store
      ≡ ok (some (decide_post_merge_verification observed_input).outcome, after))
    × Settles (decide_post_merge_verification observed_input).outcome closure_store after
unfolding observed_input
apply_post_merge_verification-merged_example =
    apply_post_merge_verification-merged policy observation green (some "h1") true closure_store
      refl
