-- ===== src/Publication/Lifecycle/Terminal.antt =====
-- The terminal statuses of a publication are those that it cannot leave, and it can always end.
use coder_er.Base.{◌≡◌, refl, ◌↔◌, true, false, Bool, List, [], ◌∷◌, ok, err, Result, arith}
use coder_er.Base.Finite.{holds_everywhere_sound}
use coder_er.Base.Machine.{InvalidTransition, run, run-settled}
use coder_er.Publication.Status.{
  PublicationStatus, publication_status_finite, publication_status_equality, publication_requested,
  commit_materializing, branch_publishing, draft_pr_creating, ready_for_human_merge, merged,
  post_merge_verifying, recovery_confirmed, closed, changes_requested, post_merge_failed, cancelled,
  publication_blocked, timed_out, merge_reverted,
}
use coder_er.Publication.Lifecycle.{
  transitions, is_terminal_publication_status, assert_publication_transition,
}

-- A publication status is terminal exactly when the table permits no change from it.
pub is_terminal_publication_status_iff :
    (s : PublicationStatus) → (is_terminal_publication_status s ≡ true) ↔ (transitions s ≡ [])
unfolding is_terminal_publication_status transitions
is_terminal_publication_status_iff publication_requested = ground arith
is_terminal_publication_status_iff _ = ground arith

-- A publication that has ended stays as it is: whatever changes are asked for, those that are all
-- accepted leave it at the terminal status.
pub run-terminal :
    (s t : PublicationStatus) (path : List PublicationStatus)
    → is_terminal_publication_status s ≡ true
    → run assert_publication_transition s path ≡ ok t
    → t ≡ s
unfolding assert_publication_transition is_terminal_publication_status
run-terminal s t path ended h =
    run-settled publication_status_finite assert_publication_transition
      is_terminal_publication_status (λ _. false) s t path refl (λ _. refl) ended h

-- The changes by which a publication ends: a cancellation, the way to the close after a merge, or
-- the statuses before the first that permits one of these.
abbrev pub way_out : PublicationStatus → List PublicationStatus
way_out commit_materializing = publication_blocked ∷ []
way_out branch_publishing = publication_blocked ∷ []
way_out draft_pr_creating = publication_blocked ∷ []
way_out ready_for_human_merge = changes_requested ∷ cancelled ∷ []
way_out merged = post_merge_verifying ∷ recovery_confirmed ∷ closed ∷ []
way_out post_merge_verifying = recovery_confirmed ∷ closed ∷ []
way_out recovery_confirmed = closed ∷ []
way_out closed = []
way_out publication_blocked = []
way_out timed_out = []
way_out post_merge_failed = []
way_out merge_reverted = []
way_out _ = cancelled ∷ []

abbrev ended : Result (InvalidTransition PublicationStatus) PublicationStatus → Bool
unfolding is_terminal_publication_status
ended (ok t) = is_terminal_publication_status t
ended (err e) = false

ended→terminal :
    (r : Result (InvalidTransition PublicationStatus) PublicationStatus)
    → ended r ≡ true
    → (t : PublicationStatus) × (r ≡ ok t) × (is_terminal_publication_status t ≡ true)
unfolding ended
ended→terminal (ok t) h = (t, refl, h)
ended→terminal (err e) h = cc

-- No publication is stuck: from every status some path of accepted changes leads to a terminal one.
pub run-way_out :
    (s : PublicationStatus)
    → (t : PublicationStatus) × (run assert_publication_transition s (way_out s) ≡ ok t)
      × (is_terminal_publication_status t ≡ true)
unfolding ended run assert_publication_transition
run-way_out s = ended→terminal (run assert_publication_transition s (way_out s)) (
    holds_everywhere_sound publication_status_finite
      (λ u. ended (run assert_publication_transition u (way_out u))) s refl)
