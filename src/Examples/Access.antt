-- ===== src/Examples/Access.antt =====
-- Permissions and signed requests at concrete inputs.
use coder_er.Base.{
  ◌≡◌, refl, true, none, some, [], ◌∷◌, ◌++◌, any, contains, Text, codes, err, nat_equality,
  list_equality,
}
use coder_er.Security.Actors.{
  ActorType, organization_owner, organization_admin, incident_commander, responder, viewer,
  actor_role_equality,
}
use coder_er.Security.Permissions.{
  CodeerPermission, read, administer_ai_policy, approve_treatment_plan, role_permissions,
  without_repeats, insert_role, sort_roles, normalize_actor_roles, has_codeer_permission,
  assert_codeer_permission, not_authorized, permission_equality,
}
use coder_er.Security.Permissions.Grants.{has_codeer_permission_iff}
use coder_er.Security.Context.{
  Platform, since, context_signature_payload, sign_trusted_context,
  verify_trusted_context_signature, is_trusted_context_fresh,
}
use coder_er.Security.Requests.{
  RequestContextOptions, ContextualRequest, CodeerRequestContext, next, rejected, unsupported_role,
  not_signed, parse_actor_roles, parsed, with_roles, by_roles, is_uuid, handle_request,
}
use coder_er.Security.Requests.Trust.{IsTrusted, handle_request-IsTrusted}
use coder_er.Security.Requests.Identity.{handle_request-same_identity}

sorted :
    normalize_actor_roles
      (viewer ∷ responder ∷ viewer ∷ organization_owner ∷ incident_commander ∷ [])
    ≡ incident_commander ∷ organization_owner ∷ responder ∷ viewer ∷ []
unfolding normalize_actor_roles without_repeats sort_roles insert_role
sorted = refl

refused_permission :
    assert_codeer_permission (responder ∷ viewer ∷ []) approve_treatment_plan
    ≡ err (not_authorized approve_treatment_plan)
unfolding assert_codeer_permission has_codeer_permission normalize_actor_roles without_repeats
    sort_roles insert_role role_permissions
refused_permission = refl

names : parse_actor_roles (some (codes " VIEWER, ,RESPONDER")) ≡ parsed (responder ∷ viewer ∷ [])
unfolding parse_actor_roles normalize_actor_roles without_repeats sort_roles insert_role
names = refl

-- A digest that can be computed by hand, in place of the platform's.
abbrev toy : Platform
toy = record {
  hmac = λ secret payload. payload ++ secret;
  utf8 = λ t. t;
  parse_date = λ t. some (since 1000);
}

abbrev key : Text
key = codes "0123456789abcdef0123456789abcdef"

abbrev options : RequestContextOptions
options = record {
  require_tenant_context = true;
  default_organization_id = codes "00000000-0000-4000-8000-000000000001";
  require_signed_context = true;
  signing_secrets = some (key ∷ []);
  signature_max_age_seconds = 300;
}

abbrev organization : Text
organization = codes "0A000000-0000-4000-8000-000000000002"

abbrev context : CodeerRequestContext
context = record {
  request_id = codes "r1";
  correlation_id = codes "r1";
  organization_id = organization;
  actor_id = codes "ann";
  actor_type = ActorType.user;
  actor_roles = viewer ∷ [];
  trusted_context = true;
}

abbrev signed : Text
signed =
    codes "v1"
    ++ (10 ∷ codes "GET")
    ++ (10 ∷ codes "/api/v1/incidents")
    ++ (10 ∷ codes "r1")
    ++ (10 ∷ codes "r1")
    ++ (10 ∷ organization)
    ++ (10 ∷ codes "ann")
    ++ (10 ∷ codes "USER")
    ++ (10 ∷ codes "VIEWER")
    ++ (10 ∷ codes "now")
    ++ key

abbrev request : ContextualRequest
request = record {
  method = codes "get";
  path = codes "/api/v1/incidents";
  original_url = codes "/api/v1/incidents";
  request_id = some (codes "r1");
  correlation_id = none;
  organization_id = some organization;
  actor_id = some (codes "ann");
  actor_type = some (codes "USER");
  actor_roles = some (codes "VIEWER");
  timestamp = some (codes "now");
  signature = some signed;
}

accepted : handle_request toy options 2000 (codes "f") request ≡ next context
unfolding handle_request by_roles with_roles parse_actor_roles is_uuid normalize_actor_roles
    without_repeats sort_roles insert_role is_trusted_context_fresh verify_trusted_context_signature
    sign_trusted_context context_signature_payload
accepted = refl

stale : handle_request toy options 400000 (codes "f") request ≡ rejected not_signed
unfolding handle_request by_roles with_roles parse_actor_roles is_uuid normalize_actor_roles
    without_repeats sort_roles insert_role is_trusted_context_fresh verify_trusted_context_signature
    sign_trusted_context context_signature_payload
stale = refl

forged :
    handle_request toy options 2000
      (codes "f")
      (record request { actor_roles = some (codes "SERVICE") })
    ≡ rejected not_signed
unfolding handle_request by_roles with_roles parse_actor_roles is_uuid normalize_actor_roles
    without_repeats sort_roles insert_role is_trusted_context_fresh verify_trusted_context_signature
    sign_trusted_context context_signature_payload
forged = refl

unknown_role :
    handle_request toy options 2000
      (codes "f")
      (record request { actor_roles = some (codes "ROOT") })
    ≡ rejected unsupported_role
unfolding handle_request by_roles parse_actor_roles
unknown_role = refl

has_codeer_permission_iff_example :
    has_codeer_permission (viewer ∷ viewer ∷ responder ∷ []) read
    ≡ any (λ r. contains (role_permissions r) read) (viewer ∷ viewer ∷ responder ∷ [])
has_codeer_permission_iff_example =
    has_codeer_permission_iff (viewer ∷ viewer ∷ responder ∷ []) read

admin_held : has_codeer_permission (organization_admin ∷ []) administer_ai_policy ≡ true
unfolding has_codeer_permission normalize_actor_roles without_repeats sort_roles insert_role
    role_permissions
admin_held = refl

handle_request-IsTrusted_example : IsTrusted toy options 2000 (codes "f") request context
handle_request-IsTrusted_example =
    handle_request-IsTrusted toy options 2000 (codes "f") request context refl refl accepted

handle_request-same_identity_example :
    (context.organization_id ≡ context.organization_id)
    × (context.actor_id ≡ context.actor_id)
    × (context.actor_type ≡ context.actor_type)
    × ((permission : CodeerPermission)
        → has_codeer_permission context.actor_roles permission
          ≡ has_codeer_permission context.actor_roles permission)
handle_request-same_identity_example =
    handle_request-same_identity toy options 2000 2000 (codes "f") (codes "f") request request
      context context (codes "now") (codes "now") (refl, refl, refl, refl) (refl, refl, refl, refl)
      refl refl accepted accepted refl
