-- ===== src/Security/Actors.antt =====
-- The types and roles of actors (packages/contracts/src/index.ts) and the order of role names.
use coder_er.Base.{
  ℕ, ◌≡◌, refl, Bool, true, false, ◌||◌, ◌&&◌, ltb, some, List, [], ◌∷◌, get_elem?, Equality, Text,
  codes, ◌==◌, nat_equality,
}
use coder_er.Base.Finite.{Finite, equality}

pub data ActorType : Type 0 where
  user service agent system : ActorType

pub data ActorRole : Type 0 where
  organization_owner organization_admin incident_commander responder viewer service : ActorRole

abbrev index : ActorRole → ℕ
index organization_owner = 0
index organization_admin = 1
index incident_commander = 2
index responder = 3
index viewer = 4
index ActorRole.service = 5

abbrev pub actor_roles : List ActorRole
actor_roles =
    organization_owner ∷ organization_admin ∷ incident_commander ∷ responder ∷ viewer
    ∷ ActorRole.service ∷ []

pub found : (r : ActorRole) → get_elem? actor_roles (index r) ≡ some r
found organization_owner = refl
found _ = refl

abbrev pub actor_role_finite : Finite ActorRole
actor_role_finite = record { index = index; members = actor_roles; found = found }

instance abbrev pub actor_role_equality : Equality ActorRole
actor_role_equality = equality actor_role_finite

-- The values of the enumeration.
abbrev pub role_name : ActorRole → Text
role_name organization_owner = codes "ORGANIZATION_OWNER"
role_name organization_admin = codes "ORGANIZATION_ADMIN"
role_name incident_commander = codes "INCIDENT_COMMANDER"
role_name responder = codes "RESPONDER"
role_name viewer = codes "VIEWER"
role_name ActorRole.service = codes "SERVICE"

-- `<=` of strings, by code units.
abbrev pub text_le : Text → Text → Bool
text_le [] t = true
text_le (c ∷ s) [] = false
text_le (c ∷ s) (d ∷ t) = ltb c d || c == d && text_le s t
