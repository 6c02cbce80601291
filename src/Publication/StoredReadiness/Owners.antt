-- ===== src/Publication/StoredReadiness/Owners.antt =====
-- What the stored evaluation makes of a required approval by a code owner.
use coder_er.Base.{
  ◌≡◌, refl, inl, inr, true, false, String, Option, List, [], ◌∷◌, map, any, Bool-cases,
}
use coder_er.Publication.Types.{PublicationPolicy, Check}
use coder_er.Publication.Checks.Reviews.{owner_approval}
use coder_er.Publication.Checks.Readiness.{evaluate_merge_readiness_iff}
use coder_er.Publication.StoredReadiness.{
  RunRow, StoredReview, PullRequestRow, stored_review, stored_merge_readiness,
}

no_stored_owner :
    (reviews : List StoredReview) → any owner_approval (map stored_review reviews) ≡ false
no_stored_owner [] = refl
no_stored_owner (r ∷ rs) = no_stored_owner rs

-- Under a policy that requires a code owner's approval the stored evaluation never reports a pull
-- request ready, whatever its checks and reviews: each stored review is read as no code owner's.
pub stored_merge_readiness-code_owner :
    (run : RunRow) (policy : PublicationPolicy) (checks : List Check) (reviews : List StoredReview)
    (pull : Option PullRequestRow) (digest : Option String)
    → policy.require_code_owner_approval ≡ true
    → (stored_merge_readiness run policy checks reviews pull digest).ready ≡ false
unfolding stored_merge_readiness
stored_merge_readiness-code_owner run policy checks reviews pull digest required =
    elim (Bool-cases (stored_merge_readiness run policy checks reviews pull digest).ready) [
      | inl ready ↦
          let owner = ((evaluate_merge_readiness_iff _ policy).0 ready).owned required in
          cc (no_stored_owner reviews, owner)
      | inr blocked ↦ blocked
    ]
