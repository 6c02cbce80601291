-- ===== src/Publication/Status.antt =====
-- The statuses of a publication run (packages/publication/src/types.ts).
use coder_er.Base.{ℕ, ◌≡◌, refl, some, List, [], ◌∷◌, get_elem?, Equality}
use coder_er.Base.Finite.{Finite, equality}

pub data PublicationStatus : Type 0 where
  publication_requested policy_check commit_materializing branch_publishing draft_pr_creating
        ci_monitoring review_monitoring awaiting_review ready_for_human_merge merged
        post_merge_verifying recovery_confirmed closed publication_blocked push_failed
        pr_creation_failed ci_failed changes_requested revision_required base_branch_stale
        security_blocked post_merge_failed merge_reverted cancelled timed_out :
      PublicationStatus

abbrev index : PublicationStatus → ℕ
index publication_requested = 0
index policy_check = 1
index commit_materializing = 2
index branch_publishing = 3
index draft_pr_creating = 4
index ci_monitoring = 5
index review_monitoring = 6
index awaiting_review = 7
index ready_for_human_merge = 8
index merged = 9
index post_merge_verifying = 10
index recovery_confirmed = 11
index closed = 12
index publication_blocked = 13
index push_failed = 14
index pr_creation_failed = 15
index ci_failed = 16
index changes_requested = 17
index revision_required = 18
index base_branch_stale = 19
index security_blocked = 20
index post_merge_failed = 21
index merge_reverted = 22
index cancelled = 23
index timed_out = 24

abbrev members : List PublicationStatus
members =
    publication_requested ∷ policy_check ∷ commit_materializing ∷ branch_publishing
    ∷ draft_pr_creating ∷ ci_monitoring ∷ review_monitoring ∷ awaiting_review
    ∷ ready_for_human_merge ∷ merged ∷ post_merge_verifying ∷ recovery_confirmed ∷ closed
    ∷ publication_blocked ∷ push_failed ∷ pr_creation_failed ∷ ci_failed ∷ changes_requested
    ∷ revision_required ∷ base_branch_stale ∷ security_blocked ∷ post_merge_failed ∷ merge_reverted
    ∷ cancelled ∷ timed_out ∷ []

pub found : (s : PublicationStatus) → get_elem? members (index s) ≡ some s
found publication_requested = refl
found _ = refl

abbrev pub publication_status_finite : Finite PublicationStatus
publication_status_finite = record { index = index; members = members; found = found }

instance abbrev pub publication_status_equality : Equality PublicationStatus
publication_status_equality = equality publication_status_finite
