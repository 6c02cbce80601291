-- ===== src/Security/Permissions/Roles.antt =====
-- Normalized roles: the order, the repetitions and the cut at ten roles are without effect.
use coder_er.Base.{
  ℕ, zero, suc, ◌+◌, ◌≤◌, ◌≡◌, refl, ◌∙◌, ap, Bool, true, ◌||◌, List, [], ◌∷◌, length, take, any,
  ◌==◌, contains, if◌then◌else◌, arith,
}
use coder_er.Security.Actors.{
  ActorRole, organization_owner, organization_admin, incident_commander, responder, viewer,
  actor_role_equality,
}
use coder_er.Security.Permissions.{without_repeats, insert_role, sort_roles, normalize_actor_roles}

module _ (p : ActorRole → Bool) where
  any-insert_role :
      (r : ActorRole) (roles : List ActorRole) → any p (insert_role r roles) ≡ (p r || any p roles)
  unfolding insert_role
  any-insert_role r [] = refl
  any-insert_role r (x ∷ roles) = ground (arith, any-insert_role r roles)

  any-sort_roles : (roles : List ActorRole) → any p (sort_roles roles) ≡ any p roles
  unfolding sort_roles
  any-sort_roles [] = refl
  any-sort_roles (r ∷ roles) =
      ground (arith, any-insert_role r (sort_roles roles), any-sort_roles roles)

  any-contains :
      (seen : List ActorRole) (r : ActorRole)
      → contains seen r ≡ true
      → p r ≡ true
      → any p seen ≡ true
  any-contains [] r h q = cc
  any-contains (x ∷ seen) r h q =
      ground (arith, any-contains seen r, actor_role_equality.beq_iff x r)

  any-without_repeats :
      (seen roles : List ActorRole)
      → (any p (without_repeats seen roles) || any p seen) ≡ (any p roles || any p seen)
  unfolding without_repeats
  any-without_repeats seen [] = refl
  any-without_repeats seen (r ∷ roles) = ground (
    arith,
    any-without_repeats seen roles,
    any-without_repeats (r ∷ seen) roles,
    any-contains seen r,
  )

abbrev count : ActorRole → List ActorRole → ℕ
count r [] = 0
count r (x ∷ roles) = if x == r then suc (count r roles) else count r roles

count-le_one :
    (r : ActorRole) (seen roles : List ActorRole)
    → count r (without_repeats seen roles) + (if contains seen r then 1 else 0) ≤ 1
unfolding without_repeats
count-le_one r seen [] = ground arith
count-le_one r seen (x ∷ roles) = ground (
  arith,
  count-le_one r seen roles,
  count-le_one r (x ∷ seen) roles,
  actor_role_equality.beq_iff x r,
)

length-eq-counts :
    (roles : List ActorRole)
    → length roles
      ≡ count organization_owner roles
        + count organization_admin roles
        + count incident_commander roles
        + count responder roles
        + count viewer roles
        + count ActorRole.service roles
length-eq-counts [] = omega arith
length-eq-counts (organization_owner ∷ roles) = omega (arith, length-eq-counts roles)
length-eq-counts (organization_admin ∷ roles) = omega (arith, length-eq-counts roles)
length-eq-counts (incident_commander ∷ roles) = omega (arith, length-eq-counts roles)
length-eq-counts (responder ∷ roles) = omega (arith, length-eq-counts roles)
length-eq-counts (viewer ∷ roles) = omega (arith, length-eq-counts roles)
length-eq-counts (ActorRole.service ∷ roles) = omega (arith, length-eq-counts roles)

length-without_repeats : (roles : List ActorRole) → length (without_repeats [] roles) ≤ 6
length-without_repeats roles =
    let unique : List ActorRole = without_repeats [] roles in
    omega (
      arith,
      length-eq-counts unique,
      count-le_one organization_owner [] roles,
      count-le_one organization_admin [] roles,
      count-le_one incident_commander [] roles,
      count-le_one responder [] roles,
      count-le_one viewer [] roles,
      count-le_one ActorRole.service [] roles,
    )

length-insert_role :
    (r : ActorRole) (roles : List ActorRole) → length (insert_role r roles) ≡ suc (length roles)
unfolding insert_role
length-insert_role r [] = refl
length-insert_role r (x ∷ roles) = ground (arith, length-insert_role r roles)

length-sort_roles : (roles : List ActorRole) → length (sort_roles roles) ≡ length roles
unfolding sort_roles
length-sort_roles [] = refl
length-sort_roles (r ∷ roles) =
    omega (arith, length-insert_role r (sort_roles roles), length-sort_roles roles)

take-all : (n : ℕ) (roles : List ActorRole) → length roles ≤ n → take n roles ≡ roles
take-all zero [] h = refl
take-all zero (r ∷ roles) h = absurd (omega arith)
take-all (suc n) [] h = refl
take-all (suc n) (r ∷ roles) h = ap (λ rest. r ∷ rest) (take-all n roles (omega arith))

-- No role is cut off.
pub normalize_actor_roles-all :
    (roles : List ActorRole) → normalize_actor_roles roles ≡ sort_roles (without_repeats [] roles)
unfolding normalize_actor_roles
normalize_actor_roles-all roles =
    take-all 10 (sort_roles (without_repeats [] roles))
      (omega (arith, length-sort_roles (without_repeats [] roles), length-without_repeats roles))

-- A test holds of some normalized role exactly when it holds of some role.
pub any-normalize_actor_roles :
    (p : ActorRole → Bool) (roles : List ActorRole)
    → any p (normalize_actor_roles roles) ≡ any p roles
any-normalize_actor_roles p roles =
    ap (any p) (normalize_actor_roles-all roles)
    ∙ any-sort_roles p (without_repeats [] roles)
    ∙ (ground (arith, any-without_repeats p [] roles))
