-- ===== src/Publication/MergeClosure.antt =====
-- The verification after a merge (packages/publication/src/merge-closure.ts,
-- packages/database/src/merge-closure-store.ts). A row that is not found is `none`; SQL and the audit
-- payloads are left out, and the transaction is the whole function: an error leaves the store as it
-- was.
pub mod Outcome
use coder_er.Base.{
  ℕ, ◌+◌, String, Bool, true, false, not, ◌&&◌, ◌||◌, Option, none, some, List, [], ◌∷◌, ◌++◌, map,
  all, find, ◌==◌, string_equality, if◌then◌else◌, Result, ok, err, ◌>>=◌, ◌>>◌,
}
use coder_er.Base.Dict
use coder_er.Base.Dict.{Dict}
use coder_er.Base.Machine.{InvalidTransition}
use coder_er.Publication.Status.{
  PublicationStatus, publication_status_equality, merged, post_merge_verifying, recovery_confirmed,
  closed, post_merge_failed,
}
use coder_er.Publication.Lifecycle.{assert_publication_transition}
use coder_er.Publication.Types.{
  NormalizedCheckStatus, ReviewState, PublicationPolicy, Check, Review, MergeReadinessInput,
  check_status_equality,
}
use coder_er.Publication.Checks.{
  MergeReadinessDecision, evaluate_merge_readiness, push_if, is_empty, status_accepted,
}
use coder_er.Publication.StoredReadiness.{RunRow}

check_passed : List Check → String → Bool
check_passed checks required = elim (find (λ (c : Check). c.name == required) checks) [
  | none ↦ false
  | some c ↦ status_accepted c.status
]

pub required_checks_passed : PublicationPolicy → List Check → Bool
unfolding check_passed
required_checks_passed policy checks = all (check_passed checks) policy.required_checks

pub data PostMergeBlocker : Type 0 where
  no_merge_commit rollback_observed head_mismatch checks_not_passed failure_not_resolved :
      PostMergeBlocker

pub data PostMergeOutcome : Type 0 where
  passed failed : PostMergeOutcome

pub record PostMergeVerificationInput : Type 0 where
  pub merge_observed : Bool
  pub merge_commit_sha : Option String
  pub approved_head_sha : Option String
  pub published_commit_sha : Option String
  pub required_checks_passed : Bool
  pub original_failure_resolved : Bool
  pub rollback_observed : Bool
  pub post_merge_verification_required : Bool

pub record PostMergeDecision : Type 0 where
  pub outcome : PostMergeOutcome
  pub blockers : List PostMergeBlocker

-- Neither `null` nor the empty text.
abbrev pub truthy : Option String → Bool
truthy none = false
truthy (some s) = not (s == "")

-- Both present, not empty, and different.
abbrev pub both_differ : Option String → Option String → Bool
both_differ none q = false
both_differ (some a) none = false
both_differ (some a) (some b) = not (a == "") && (not (b == "") && not (a == b))

post_merge_blockers : PostMergeVerificationInput → List PostMergeBlocker
post_merge_blockers input =
    push_if (not input.merge_observed || not (truthy input.merge_commit_sha)) no_merge_commit
    ++ (push_if input.rollback_observed rollback_observed
        ++ (push_if (both_differ input.approved_head_sha input.published_commit_sha) head_mismatch
            ++ (push_if (input.post_merge_verification_required && not input.required_checks_passed)
                  checks_not_passed
                ++ push_if (not input.original_failure_resolved) failure_not_resolved)))

unfoldable pub decide_post_merge_verification : PostMergeVerificationInput → PostMergeDecision
unfolding post_merge_blockers
decide_post_merge_verification input =
    let blockers = post_merge_blockers input in
    record { outcome = if is_empty blockers then passed else failed; blockers = blockers }

pub record Observation : Type 0 where
  pub merge_commit_sha : String
  pub approved_head_sha : String

pub data ClosureEvent : Type 0 where
  verification_passed verification_failed incident_closed : ClosureEvent

-- What `applyPostMergeVerification` writes; the closure records by incident.
pub record ClosureStore : Type 0 where
  pub run : RunRow
  pub verifications : List PostMergeOutcome
  pub events : List ClosureEvent
  pub closures : Dict String String

abbrev observed_sha : Option Observation → Option String
observed_sha none = none
observed_sha (some o) = some o.merge_commit_sha

abbrev observed_head : Option Observation → Option String
observed_head none = none
observed_head (some o) = some o.approved_head_sha

abbrev is_some {ℓ} : {A : Type ℓ} → Option A → Bool
is_some none = false
is_some (some a) = true

unfoldable pub post_merge_input :
    PublicationPolicy
    → Option Observation
    → List Check
    → Option String
    → Bool
    → PostMergeVerificationInput
post_merge_input policy observation checks published_sha recovery_verified = record {
  merge_observed = is_some observation;
  merge_commit_sha = observed_sha observation;
  approved_head_sha = observed_head observation;
  published_commit_sha = published_sha;
  required_checks_passed = required_checks_passed policy checks;
  original_failure_resolved = recovery_verified;
  rollback_observed = false;
  post_merge_verification_required = policy.post_merge_verification_required;
}

-- The local `transition`: the check, then the new status under the next version.
transition :
    PublicationStatus → ClosureStore → Result (InvalidTransition PublicationStatus) ClosureStore
transition to store = do
  assert_publication_transition store.run.status to
  ok (record store { run = record store.run { status = to; version = store.run.version + 1 } })

-- `ON CONFLICT ("incidentId") DO NOTHING`.
insert_closure : ClosureStore → ClosureStore
insert_closure store =
    if Dict.has store.closures store.run.incident_id
    then store
    else record store { closures = Dict.set store.closures store.run.incident_id store.run.id }

abbrev append_event : ClosureEvent → ClosureStore → ClosureStore
append_event event store = record store { events = store.events ++ event ∷ [] }

settle : PostMergeOutcome → ClosureStore → Result (InvalidTransition PublicationStatus) ClosureStore
unfolding transition insert_closure
settle passed store = do
  confirmed ← transition recovery_confirmed store
  shut ← transition closed confirmed
  ok (append_event incident_closed (insert_closure shut))
settle failed store = transition post_merge_failed store

abbrev outcome_event : PostMergeOutcome → ClosureEvent
outcome_event passed = verification_passed
outcome_event failed = verification_failed

pub verify_merged :
    PostMergeOutcome → ClosureStore → Result (InvalidTransition PublicationStatus) ClosureStore
unfolding transition settle
verify_merged outcome store = do
  let recorded =
      append_event (outcome_event outcome)
        (record store { verifications = store.verifications ++ outcome ∷ [] })
  verifying ← transition post_merge_verifying recorded
  settle outcome verifying

-- The outcome is `none` where the run is not merged.
unfoldable pub apply_post_merge_verification :
    PublicationPolicy
    → Option Observation
    → List Check
    → Option String
    → Bool
    → ClosureStore
    → Result (InvalidTransition PublicationStatus) (Option PostMergeOutcome × ClosureStore)
apply_post_merge_verification policy observation checks published_sha recovery_verified store =
    if not (store.run.status == merged) then ok (none, store) else do
      let input = post_merge_input policy observation checks published_sha recovery_verified
      let outcome = (decide_post_merge_verification input).outcome
      done ← verify_merged outcome store
      ok (some outcome, done)
