-- ===== src/Publication/Checks/Reviews.antt =====
-- What the two passes over the reviews of `evaluateMergeReadiness` compute: the last word of each
-- actor, and whether a code owner has ever approved.
use coder_er.Base.{
  ℕ, ◌+◌, ◌≡◌, refl, Bool, true, false, not, ◌&&◌, String, List, [], ◌∷◌, arith, ltb, length, any,
  keep, contains, ◌==◌, string_equality,
}
use coder_er.Base.Dict
use coder_er.Base.Dict.{Dict}
use coder_er.Publication.Types.{ReviewState, Review, review_state_equality}
use coder_er.Publication.Checks.{
  latest_by_actor, values, is_empty, code_owner_approvers, add_approver,
}

abbrev pub one_if : Bool → ℕ
one_if true = 1
one_if false = 0

abbrev pub reviewed_by : List Review → String → Bool
reviewed_by reviews actor = any (λ (r : Review). r.actor_id == actor) reviews

-- How many reviews satisfy `p` and are the last of their actor.
abbrev pub final_count : (ReviewState → Bool) → List Review → ℕ
final_count p [] = 0
final_count p (r ∷ rs) = one_if (not (reviewed_by rs r.actor_id) && p r.state) + final_count p rs

-- How many entries satisfy `p` and are not overwritten by the reviews to come.
live_count : (ReviewState → Bool) → Dict String ReviewState → List Review → ℕ
live_count p [] rs = 0
live_count p ((k, v) ∷ m) rs = one_if (not (reviewed_by rs k) && p v) + live_count p m rs

-- Entries under other keys are not touched by a write.
live_count-absent :
    (p : ReviewState → Bool) (m : Dict String ReviewState) (r : Review) (rs : List Review)
    → Dict.has m r.actor_id ≡ false
    → live_count p m (r ∷ rs) ≡ live_count p m rs
unfolding live_count Dict.has
live_count-absent p [] r rs h = refl
live_count-absent p ((k, v) ∷ m) r rs h = ground (
  arith,
  live_count-absent p m r rs,
  string_equality.beq_iff r.actor_id k,
  string_equality.beq_iff k r.actor_id,
)

live_count-set :
    (p : ReviewState → Bool) (m : Dict String ReviewState) (r : Review) (rs : List Review)
    → Dict.Distinct m
    → live_count p (Dict.set m r.actor_id r.state) rs
      ≡ live_count p m (r ∷ rs) + one_if (not (reviewed_by rs r.actor_id) && p r.state)
unfolding live_count Dict.set Dict.has
live_count-set p [] r rs d = omega arith
live_count-set p ((k, v) ∷ m) r rs d = ground (
  arith,
  live_count-set p m r rs d.1,
  live_count-absent p m r rs,
  string_equality.beq_iff r.actor_id k,
  string_equality.beq_iff k r.actor_id,
)

abbrev pub count_where : (ReviewState → Bool) → List ReviewState → ℕ
count_where p states = length (keep p states)

live_count-nil :
    (p : ReviewState → Bool) (m : Dict String ReviewState)
    → live_count p m [] ≡ count_where p (values m)
unfolding live_count values
live_count-nil p [] = refl
live_count-nil p ((k, v) ∷ m) = ground (arith, live_count-nil p m)

count-latest_by_actor :
    (p : ReviewState → Bool) (m : Dict String ReviewState) (rs : List Review)
    → Dict.Distinct m
    → count_where p (values (latest_by_actor m rs)) ≡ live_count p m rs + final_count p rs
unfolding latest_by_actor
count-latest_by_actor p m [] d = omega (arith, live_count-nil p m)
count-latest_by_actor p m (r ∷ rs) d = omega (
  arith,
  count-latest_by_actor p (Dict.set m r.actor_id r.state) rs
      (Dict.set-Distinct m r.actor_id r.state d),
  live_count-set p m r rs d,
)

-- The states that the `Map` keeps are those of the reviews that no later one of their actor replaces.
pub count-latest :
    (p : ReviewState → Bool) (rs : List Review)
    → count_where p (values (latest_by_actor [] rs)) ≡ final_count p rs
unfolding live_count
count-latest p rs = omega (arith, count-latest_by_actor p [] rs tt)

pub contains-count :
    (states : List ReviewState) (s : ReviewState)
    → contains states s ≡ ltb 0 (count_where (λ t. t == s) states)
contains-count [] s = refl
contains-count (t ∷ states) s = ground (arith, contains-count states s)

abbrev pub owner_approval : Review → Bool
owner_approval r = r.code_owner && r.state == ReviewState.approved

is_empty-add_approver :
    (xs : List String) (r : Review)
    → is_empty (add_approver xs r) ≡ (is_empty xs && not (owner_approval r))
unfolding add_approver
is_empty-add_approver [] r = ground arith
is_empty-add_approver (x ∷ xs) r = ground arith

pub is_empty-code_owner_approvers :
    (xs : List String) (rs : List Review)
    → is_empty (code_owner_approvers xs rs) ≡ (is_empty xs && not (any owner_approval rs))
unfolding code_owner_approvers
is_empty-code_owner_approvers xs [] = ground arith
is_empty-code_owner_approvers xs (r ∷ rs) =
    ground (arith, is_empty-code_owner_approvers (add_approver xs r) rs, is_empty-add_approver xs r)
