-- ===== src/Security/Permissions/Grants.antt =====
-- Which roles grant which permissions.
use coder_er.Base.{
  ℕ, ◌≤◌, leb, le→leb, sym, ◌≡◌, refl, ◌∙◌, Bool, true, not, ◌||◌, ◌&&◌, List, [], ◌∷◌, any,
  contains, arith,
}
use coder_er.Base.Finite.{holds_everywhere, holds_everywhere_sound}
use coder_er.Security.Actors.{
  ActorRole, organization_owner, organization_admin, incident_commander, responder, viewer,
  actor_role_equality, actor_role_finite,
}
use coder_er.Security.Permissions.{
  CodeerPermission, has_codeer_permission, role_permissions, permission_equality, permission_finite,
  override_sandbox_policy, administer_ai_policy, administer_recovery_policy,
  administer_publication_policy, admit_repository,
}
use coder_er.Security.Permissions.Roles.{any-normalize_actor_roles}

-- A permission is held exactly when one of the roles grants it, whatever the order, the repetitions
-- and the number of the roles.
pub has_codeer_permission_iff :
    (roles : List ActorRole) (p : CodeerPermission)
    → has_codeer_permission roles p ≡ any (λ r. contains (role_permissions r) p) roles
unfolding has_codeer_permission
has_codeer_permission_iff roles p =
    any-normalize_actor_roles (λ r. contains (role_permissions r) p) roles

abbrev pub is_administration : CodeerPermission → Bool
is_administration p =
    contains
      (override_sandbox_policy ∷ administer_ai_policy ∷ administer_recovery_policy
        ∷ administer_publication_policy ∷ admit_repository ∷ [])
      p

abbrev pub is_administrator : ActorRole → Bool
is_administrator r = contains (organization_owner ∷ organization_admin ∷ ActorRole.service ∷ []) r

-- How far a role reaches.
abbrev pub rank : ActorRole → ℕ
rank viewer = 0
rank responder = 1
rank incident_commander = 2
rank _ = 3

abbrev implies : Bool → Bool → Bool
implies a b = not a || b

abbrev grants : ActorRole → CodeerPermission → Bool
grants r p = contains (role_permissions r) p

abbrev holds_at : ActorRole → ActorRole → CodeerPermission → Bool
holds_at r s p =
    implies (grants r p && is_administration p) (is_administrator r)
    && implies (leb (rank s) (rank r) && grants s p) (grants r p)

table :
    holds_everywhere actor_role_finite (λ r.
      holds_everywhere actor_role_finite (λ s. holds_everywhere permission_finite (holds_at r s)))
    ≡ true
unfolding role_permissions
table = refl

holds_at-everywhere : (r s : ActorRole) (p : CodeerPermission) → holds_at r s p ≡ true
holds_at-everywhere r s p = holds_everywhere_sound permission_finite (holds_at r s) p (
    holds_everywhere_sound actor_role_finite
      (λ s'. holds_everywhere permission_finite (holds_at r s')) s
      (holds_everywhere_sound actor_role_finite
        (λ r'.
          holds_everywhere actor_role_finite
            (λ s'. holds_everywhere permission_finite (holds_at r' s')))
        r table))

any-grants :
    (roles : List ActorRole) (p : CodeerPermission)
    → any (λ r. grants r p) roles ≡ true
    → is_administration p ≡ true
    → any is_administrator roles ≡ true
any-grants [] p h administration = cc
any-grants (r ∷ roles) p h administration =
    ground (arith, any-grants roles p, holds_at-everywhere r r p)

-- Only owners, administrators and services hold the permissions to administer policies, to override
-- the sandbox policy and to admit repositories.
pub has_codeer_permission-administration :
    (roles : List ActorRole) (p : CodeerPermission)
    → is_administration p ≡ true
    → has_codeer_permission roles p ≡ true
    → any is_administrator roles ≡ true
has_codeer_permission-administration roles p administration held =
    any-grants roles p (sym (has_codeer_permission_iff roles p) ∙ held) administration

-- A promotion takes no permission away.
pub has_codeer_permission-promotion :
    (r s : ActorRole) (roles : List ActorRole) (p : CodeerPermission)
    → rank s ≤ rank r
    → has_codeer_permission (s ∷ roles) p ≡ true
    → has_codeer_permission (r ∷ roles) p ≡ true
has_codeer_permission-promotion r s roles p below held =
    let table_row : holds_at r s p ≡ true = holds_at-everywhere r s p in
    let before : (grants s p || any (λ x. grants x p) roles) ≡ true =
      sym (has_codeer_permission_iff (s ∷ roles) p) ∙ held in
    let after : (grants r p || any (λ x. grants x p) roles) ≡ true =
      ground (arith, table_row, before, le→leb (rank s) (rank r) below) in
    has_codeer_permission_iff (r ∷ roles) p ∙ after
