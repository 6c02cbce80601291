-- ===== src/Examples/Recoveries.antt =====
-- A recovery run, its lease, its numbers, and the decisions on its publication.
use coder_er.Base.{
  ℕ, ◌≤◌, ◌≡◌, refl, true, String, none, some, List, [], ◌∷◌, ok, arith, contains, length,
}
use coder_er.Leases.{Lease, held, renew, lease_step}
use coder_er.Leases.Histories.{AllowsOnly}
use coder_er.Approvals.{StoreActorContext, ActorType, ActorRole, approvers, record_approval}
use coder_er.Recovery.Status.{RecoveryRunStatus, recovery_run_status_equality}
use coder_er.Recovery.Lifecycle.{assert_recovery_transition}
use coder_er.Recovery.Store.{
  RecoveryRunState, PublicationDecision, acquire_lease, heartbeat, checkpoint, holds_lease, reached,
}
use coder_er.Recovery.Store.Requests.{
  DecisionContext, RiskLevel, request_cancellation, mark_cleanup, decide_publication,
  request_revision, revisable,
}
use coder_er.Recovery.Store.Requests.Quorum.{IsReleasedBy, decide_publication-quorum}
use coder_er.Recovery.Store.Commands.{
  RecoveryCommand, by_worker, cancel, decide, clean, beat, acquire, reach, perform, lease, work,
}
use coder_er.Recovery.Store.Refinement.{recovery_runs, perform-refines, acquire_lease-exclusive}
use coder_er.Recovery.Store.Books.{IsSound, perform-IsSound, checkpoint-succeeds}

abbrev waiting_run : RecoveryRunState
waiting_run = record {
  status = RecoveryRunStatus.awaiting_publication_approval;
  version = 7;
  current_checkpoint = 2;
  current_patch_version = some 1;
  revision_comment = none;
  lease_owner = some "gone";
  lease_expires = some 50;
  heartbeat_at = none;
  started_at = some 10;
  completed_at = none;
  cancellation_requested_at = none;
  error_code = none;
  checkpoints =
      record {
        sequence = 2;
        stage = RecoveryRunStatus.awaiting_publication_approval;
        lease_owner = "gone";
      }
      ∷ record { sequence = 1; stage = RecoveryRunStatus.package_building; lease_owner = "gone" }
      ∷ [];
  worktree = none;
  patches = record { version = 1; patch_digest = "d1" } ∷ [];
  approvals = [];
  cleanups = [];
  jobs = [];
}

abbrev held_run : RecoveryRunState
held_run = record waiting_run {
  lease_owner = some "w1";
  lease_expires = some 160;
  heartbeat_at = some 100;
}

abbrev tries : List (ℕ × RecoveryCommand)
tries =
    (105, by_worker "w2" (reach RecoveryRunStatus.cancelled))
    ∷ (110, by_worker "w1" (beat 20))
    ∷ (112, cancel)
    ∷ (115, by_worker "w2" (acquire 60))
    ∷ []

acquire_lease-exclusive_example : AllowsOnly recovery_runs "w1" tries held_run
unfolding acquire_lease
acquire_lease-exclusive_example =
    acquire_lease-exclusive "w1" 60 100 waiting_run held_run tries refl (
      (refl, omega arith, omega arith),
      (
        (refl, omega arith, omega arith),
        ((refl, omega arith, omega arith), ((refl, omega arith, omega arith), tt)),
      ),
    )

abbrev renewed_run : RecoveryRunState
renewed_run = record held_run { lease_expires = some 130; heartbeat_at = some 110 }

renewal : perform (by_worker "w1" (beat 20)) 110 held_run ≡ some renewed_run
unfolding perform work heartbeat
renewal = refl

perform-refines_example :
    (l' : Lease) × ((lease_step (renew "w1" 20) 110 (held "w1" 160) ≡ some l')
      × (lease renewed_run ≡ some l'))
perform-refines_example =
    perform-refines (by_worker "w1" (beat 20)) 110 held_run renewed_run (held "w1" 160) refl renewal

held_run-IsSound : IsSound held_run
held_run-IsSound = record {
  counted = refl;
  numbered = (refl, (refl, tt));
  latest = refl;
  unique = (refl, tt);
  queued = refl;
}

abbrev later_run : RecoveryRunState
later_run = reached "w1" RecoveryRunStatus.patch_planning held_run

later :
    perform (by_worker "w1" (reach RecoveryRunStatus.patch_planning)) 120 held_run ≡ some later_run
unfolding perform work checkpoint assert_recovery_transition
later = refl

perform-IsSound_example : IsSound later_run × (7 ≤ 8)
perform-IsSound_example =
    perform-IsSound (by_worker "w1" (reach RecoveryRunStatus.patch_planning)) 120 held_run later_run
      held_run-IsSound later

checkpoint-succeeds_example :
    (holds_lease "w1" 120 held_run ≡ true
      → assert_recovery_transition RecoveryRunStatus.awaiting_publication_approval
          RecoveryRunStatus.patch_planning
        ≡ ok tt
      → (r' : RecoveryRunState) × ((checkpoint "w1" 120 RecoveryRunStatus.patch_planning held_run
            ≡ ok r')
          × ((r'.status ≡ RecoveryRunStatus.patch_planning)
              × (r'.current_checkpoint ≡ length r'.checkpoints))))
    × (contains revisable RecoveryRunStatus.awaiting_publication_approval ≡ true
        → (r' : RecoveryRunState) × ((request_revision 7 "smaller" held_run ≡ ok r')
            × (r'.status ≡ RecoveryRunStatus.requested)))
checkpoint-succeeds_example =
    checkpoint-succeeds "w1" "smaller" 120 RecoveryRunStatus.patch_planning held_run
      held_run-IsSound

abbrev risky : DecisionContext
risky = record {
  required_publication_approvals = some 2;
  risk = some RiskLevel.high;
  plan_approvers = "planner" ∷ [];
}

abbrev person : String → StoreActorContext
person name = record {
  actor_id = name;
  actor_type = ActorType.user;
  actor_roles = ActorRole.incident_commander ∷ [];
}

abbrev approval : String → ℕ → RecoveryCommand
approval name version = decide risky (person name) PublicationDecision.approve version

-- An approval, a cancellation, the same approval again, one by an approver of the plan, a cleanup, and
-- an approval by another person.
abbrev asked : List (ℕ × RecoveryCommand)
asked =
    (60, approval "ann" 7)
    ∷ (61, cancel)
    ∷ (62, approval "ann" 9)
    ∷ (63, approval "planner" 10)
    ∷ (64, by_worker "w" (clean true true none))
    ∷ (65, approval "bob" 10)
    ∷ []

decide_publication-quorum_example : (names : List String) × IsReleasedBy risky asked names
unfolding decide_publication perform work request_cancellation mark_cleanup approvers
    record_approval
decide_publication-quorum_example =
    decide_publication-quorum risky asked waiting_run 1
      (refl, (tt, (refl, (refl, (tt, (refl, tt)))))) refl refl refl refl
