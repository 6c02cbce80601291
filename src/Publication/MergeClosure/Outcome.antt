-- ===== src/Publication/MergeClosure/Outcome.antt =====
-- What the verification after a merge decides, and what it leaves in the store.
use coder_er.Base.{
  ◌≡◌, refl, ◌↔◌, inl, inr, ◌+◌, Bool, true, false, String, Option, some, List, [], ◌∷◌, ◌++◌,
  append_assoc, arith, ok, Bool-cases, if◌then◌else◌, string_equality, ℕ,
}
use coder_er.Base.Dict
use coder_er.Base.Dict.{Dict}
use coder_er.Publication.Status.{
  merged, closed, post_merge_verifying, recovery_confirmed, post_merge_failed,
  publication_status_equality, PublicationStatus,
}
use coder_er.Publication.Lifecycle.{assert_publication_transition}
use coder_er.Publication.Types.{PublicationPolicy, Check}
use coder_er.Publication.MergeClosure.{
  PostMergeVerificationInput, truthy, both_differ, decide_post_merge_verification, passed, failed,
  PostMergeOutcome, Observation, ClosureStore, apply_post_merge_verification, post_merge_input,
  verify_merged, settle, transition, insert_closure, outcome_event, ClosureEvent, incident_closed,
  verification_passed, append_event,
}

-- What a passed verification rests on.
pub record IsConfirmed (input : PostMergeVerificationInput) : Type 0 where
  pub observed : input.merge_observed ≡ true
  pub commit_known : truthy input.merge_commit_sha ≡ true
  pub kept : input.rollback_observed ≡ false
  pub same_head : both_differ input.approved_head_sha input.published_commit_sha ≡ false
  pub checked : input.post_merge_verification_required ≡ true → input.required_checks_passed ≡ true
  pub resolved : input.original_failure_resolved ≡ true

-- The verification after a merge passes exactly when a merge commit is known, no rollback was
-- observed, the approved and the published commit do not differ where both are known, the required
-- checks passed if the policy asks for them, and the original failure is resolved.
pub decide_post_merge_verification_iff :
    (input : PostMergeVerificationInput)
    → ((decide_post_merge_verification input).outcome ≡ passed) ↔ IsConfirmed input
unfolding decide_post_merge_verification
decide_post_merge_verification_iff input = (λ h. ground arith, λ r. ground arith)

abbrev pub final_status : PostMergeOutcome → PublicationStatus
final_status passed = closed
final_status failed = post_merge_failed

abbrev pub changes_made : PostMergeOutcome → ℕ
changes_made passed = 3
changes_made failed = 2

abbrev pub events_made : PostMergeOutcome → List ClosureEvent
events_made passed = outcome_event passed ∷ incident_closed ∷ []
events_made failed = outcome_event failed ∷ []

abbrev pub closure_kept : PostMergeOutcome → ClosureStore → Dict String String
closure_kept failed store = store.closures
closure_kept passed store =
    if Dict.has store.closures store.run.incident_id
    then store.closures
    else Dict.set store.closures store.run.incident_id store.run.id

-- What a run that is merged comes to, by the outcome of its verification.
pub record Settles (outcome : PostMergeOutcome) (before after : ClosureStore) : Type 0 where
  pub status : after.run.status ≡ final_status outcome
  pub version : after.run.version ≡ before.run.version + changes_made outcome
  pub verifications : after.verifications ≡ before.verifications ++ outcome ∷ []
  pub events : after.events ≡ before.events ++ events_made outcome
  pub closures : after.closures ≡ closure_kept outcome before

abbrev moved : PublicationStatus → ClosureStore → ClosureStore
moved to store = record store {
  run = record store.run { status = to; version = store.run.version + 1 };
}

transition-permitted :
    (to from : PublicationStatus) (store : ClosureStore)
    → store.run.status ≡ from
    → assert_publication_transition from to ≡ ok tt
    → transition to store ≡ ok (moved to store)
unfolding transition
transition-permitted to from store m permitted = rw (m, permitted)

insert_closure-eq :
    (store : ClosureStore)
    → insert_closure store ≡ record store { closures = closure_kept passed store }
unfolding insert_closure
insert_closure-eq store = elim (Bool-cases (Dict.has store.closures store.run.incident_id)) [
  | inl old ↦ rw old refl
  | inr new ↦ rw new refl
]

abbrev recorded : PostMergeOutcome → ClosureStore → ClosureStore
recorded outcome store = record store {
  verifications = store.verifications ++ outcome ∷ [];
  events = store.events ++ outcome_event outcome ∷ [];
}

abbrev confirmed : ClosureStore → ClosureStore
confirmed store = moved closed (moved recovery_confirmed (moved post_merge_verifying store))

abbrev settled : PostMergeOutcome → ClosureStore → ClosureStore
settled passed store =
    let shut = confirmed (recorded passed store) in
    record shut {
      events = shut.events ++ incident_closed ∷ [];
      closures = closure_kept passed shut;
    }
settled failed store = moved post_merge_failed (moved post_merge_verifying (recorded failed store))

settle-passed :
    (store : ClosureStore)
    → store.run.status ≡ post_merge_verifying
    → settle passed store
      ≡ ok (
          append_event incident_closed
            (insert_closure (moved closed (moved recovery_confirmed store))))
unfolding settle assert_publication_transition
settle-passed store m =
    rw (transition-permitted recovery_confirmed post_merge_verifying store m refl)

verify_merged-eq-settled :
    (outcome : PostMergeOutcome) (store : ClosureStore)
    → store.run.status ≡ merged
    → verify_merged outcome store ≡ ok (settled outcome store)
unfolding verify_merged assert_publication_transition
verify_merged-eq-settled passed store m =
    rw (transition-permitted post_merge_verifying merged (recorded passed store) m refl) (
      rw (settle-passed (moved post_merge_verifying (recorded passed store)) refl)
        (rw (insert_closure-eq (confirmed (recorded passed store))) refl))
verify_merged-eq-settled failed store m =
    rw (transition-permitted post_merge_verifying merged (recorded failed store) m refl) (
      unfold settle in
      transition-permitted post_merge_failed post_merge_verifying
        (moved post_merge_verifying (recorded failed store)) refl refl)

settled-Settles :
    (outcome : PostMergeOutcome) (store : ClosureStore)
    → Settles outcome store (settled outcome store)
settled-Settles passed store = record {
  status = refl;
  version = omega arith;
  verifications = refl;
  events = append_assoc store.events (verification_passed ∷ []) (incident_closed ∷ []);
  closures = refl;
}
settled-Settles failed store = record {
  status = refl;
  version = omega arith;
  verifications = refl;
  events = refl;
  closures = refl;
}

-- The verification of a merged run is never refused by the table of status changes. It records its
-- outcome and event; if it passes, the run is closed after three changes and the incident has a
-- closure record, an earlier one being kept; if it fails, the run ends as failed after two changes
-- and no closure is written.
pub apply_post_merge_verification-merged :
    (policy : PublicationPolicy) (observation : Option Observation) (checks : List Check)
    (published : Option String) (recovered : Bool) (store : ClosureStore)
    → store.run.status ≡ merged
    → let outcome =
        (decide_post_merge_verification
          (post_merge_input policy observation checks published recovered)).outcome in
      (after : ClosureStore) × (apply_post_merge_verification policy observation checks published
          recovered store
        ≡ ok (some outcome, after))
      × Settles outcome store after
unfolding apply_post_merge_verification
apply_post_merge_verification-merged policy observation checks published recovered store m =
    let outcome =
      (decide_post_merge_verification
        (post_merge_input policy observation checks published recovered)).outcome in
    (
      settled outcome store,
      rw (
        (publication_status_equality.beq_iff store.run.status merged).1 m,
        verify_merged-eq-settled outcome store m,
      ),
      settled-Settles outcome store,
    )
