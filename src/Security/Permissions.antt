-- ===== src/Security/Permissions.antt =====
-- What the roles permit: `rolePermissions`, `normalizeActorRoles` and `hasCodeerPermission`
-- (packages/security/src/index.ts). One type holds the permissions of incidents and of repositories.
pub mod Roles
pub mod Grants
use coder_er.Base.{
  ℕ, ◌≡◌, refl, Bool, true, false, if◌then◌else◌, some, List, [], ◌∷◌, get_elem?, take, any,
  Equality, ◌==◌, contains, Result, ok, err, throw_if, not,
}
use coder_er.Base.Finite.{Finite, equality}
use coder_er.Security.Actors.{
  ActorRole, organization_owner, organization_admin, incident_commander, responder, viewer,
  actor_role_equality, role_name, text_le,
}

pub data CodeerPermission : Type 0 where
  read create add_evidence request_triage transition read_audit override_severity
        manage_restricted_evidence request_reproduction read_reproduction cancel_reproduction
        override_sandbox_policy start_investigation read_investigation cancel_investigation
        resume_investigation request_plan_revision approve_treatment_plan reject_treatment_plan
        administer_ai_policy start_recovery read_recovery cancel_recovery resume_recovery
        request_recovery_revision approve_recovery_publication reject_recovery_publication
        administer_recovery_policy start_publication read_publication cancel_publication
        retry_publication request_publication_revision mark_publication_ready read_incident_closure
        administer_publication_policy read_repository admit_repository :
      CodeerPermission

abbrev index : CodeerPermission → ℕ
index read = 0
index create = 1
index add_evidence = 2
index request_triage = 3
index transition = 4
index read_audit = 5
index override_severity = 6
index manage_restricted_evidence = 7
index request_reproduction = 8
index read_reproduction = 9
index cancel_reproduction = 10
index override_sandbox_policy = 11
index start_investigation = 12
index read_investigation = 13
index cancel_investigation = 14
index resume_investigation = 15
index request_plan_revision = 16
index approve_treatment_plan = 17
index reject_treatment_plan = 18
index administer_ai_policy = 19
index start_recovery = 20
index read_recovery = 21
index cancel_recovery = 22
index resume_recovery = 23
index request_recovery_revision = 24
index approve_recovery_publication = 25
index reject_recovery_publication = 26
index administer_recovery_policy = 27
index start_publication = 28
index read_publication = 29
index cancel_publication = 30
index retry_publication = 31
index request_publication_revision = 32
index mark_publication_ready = 33
index read_incident_closure = 34
index administer_publication_policy = 35
index read_repository = 36
index admit_repository = 37

-- `Object.values` of both enumerations.
abbrev pub all_permissions : List CodeerPermission
all_permissions =
    read ∷ create ∷ add_evidence ∷ request_triage ∷ transition ∷ read_audit ∷ override_severity
    ∷ manage_restricted_evidence ∷ request_reproduction ∷ read_reproduction ∷ cancel_reproduction
    ∷ override_sandbox_policy ∷ start_investigation ∷ read_investigation ∷ cancel_investigation
    ∷ resume_investigation ∷ request_plan_revision ∷ approve_treatment_plan ∷ reject_treatment_plan
    ∷ administer_ai_policy ∷ start_recovery ∷ read_recovery ∷ cancel_recovery ∷ resume_recovery
    ∷ request_recovery_revision ∷ approve_recovery_publication ∷ reject_recovery_publication
    ∷ administer_recovery_policy ∷ start_publication ∷ read_publication ∷ cancel_publication
    ∷ retry_publication ∷ request_publication_revision ∷ mark_publication_ready
    ∷ read_incident_closure ∷ administer_publication_policy ∷ read_repository ∷ admit_repository
    ∷ []

pub found : (p : CodeerPermission) → get_elem? all_permissions (index p) ≡ some p
found read = refl
found _ = refl

abbrev pub permission_finite : Finite CodeerPermission
permission_finite = record { index = index; members = all_permissions; found = found }

instance abbrev pub permission_equality : Equality CodeerPermission
permission_equality = equality permission_finite

unfoldable pub role_permissions : ActorRole → List CodeerPermission
role_permissions organization_owner = all_permissions
role_permissions organization_admin = all_permissions
role_permissions incident_commander =
    read ∷ create ∷ add_evidence ∷ request_triage ∷ transition ∷ read_audit ∷ override_severity
    ∷ manage_restricted_evidence ∷ request_reproduction ∷ read_reproduction ∷ cancel_reproduction
    ∷ start_investigation ∷ read_investigation ∷ cancel_investigation ∷ resume_investigation
    ∷ request_plan_revision ∷ approve_treatment_plan ∷ reject_treatment_plan ∷ start_recovery
    ∷ read_recovery ∷ cancel_recovery ∷ resume_recovery ∷ request_recovery_revision
    ∷ approve_recovery_publication ∷ reject_recovery_publication ∷ start_publication
    ∷ read_publication ∷ cancel_publication ∷ retry_publication ∷ request_publication_revision
    ∷ mark_publication_ready ∷ read_incident_closure ∷ read_repository ∷ []
role_permissions responder =
    read ∷ create ∷ add_evidence ∷ request_triage ∷ request_reproduction ∷ read_reproduction
    ∷ read_investigation ∷ read_recovery ∷ read_publication ∷ read_incident_closure
    ∷ read_repository ∷ []
role_permissions viewer =
    read ∷ read_reproduction ∷ read_investigation ∷ read_recovery ∷ read_publication
    ∷ read_incident_closure ∷ read_repository ∷ []
role_permissions ActorRole.service = all_permissions

-- `[...new Set(roles)]`: the first of equal roles stays.
unfoldable pub without_repeats : List ActorRole → List ActorRole → List ActorRole
without_repeats seen [] = []
without_repeats seen (r ∷ roles) =
    let old = without_repeats seen roles in
    let new = r ∷ without_repeats (r ∷ seen) roles in if contains seen r then old else new

unfoldable pub insert_role : ActorRole → List ActorRole → List ActorRole
insert_role r [] = r ∷ []
insert_role r (x ∷ roles) =
    let rest = insert_role r roles in
    if text_le (role_name r) (role_name x) then r ∷ x ∷ roles else x ∷ rest

-- `sort()`
unfoldable pub sort_roles : List ActorRole → List ActorRole
unfolding insert_role
sort_roles [] = []
sort_roles (r ∷ roles) = insert_role r (sort_roles roles)

abbrev pub max_context_roles : ℕ
max_context_roles = 10

unfoldable pub normalize_actor_roles : List ActorRole → List ActorRole
unfolding without_repeats sort_roles
normalize_actor_roles roles = take max_context_roles (sort_roles (without_repeats [] roles))

unfoldable pub has_codeer_permission : List ActorRole → CodeerPermission → Bool
unfolding normalize_actor_roles role_permissions
has_codeer_permission roles permission =
    any (λ r. contains (role_permissions r) permission) (normalize_actor_roles roles)

pub data AuthorizationError : Type 0 where
  not_authorized : CodeerPermission → AuthorizationError

unfoldable pub assert_codeer_permission :
    List ActorRole → CodeerPermission → Result AuthorizationError (Unit {0})
unfolding has_codeer_permission
assert_codeer_permission roles permission =
    throw_if (not (has_codeer_permission roles permission)) (not_authorized permission)
