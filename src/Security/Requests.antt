-- ===== src/Security/Requests.antt =====
-- The middleware that gives each request its context (apps/api/src/security/
-- request-context.middleware.ts). `randomUUID` and `Date.now` are arguments; what the middleware
-- does is its result: the context that the next handler gets, or the rejection. The two response
-- headers repeat the identifiers of the context.
pub mod Trust
pub mod Identity
use coder_er.Base.{
  ℕ, zero, suc, Bool, true, false, not, ◌&&◌, ◌||◌, Option, none, some, List, [], ◌∷◌, ◌++◌, map,
  all, any, keep, find, length, ltb, leb, contains, Text, codes, lower, starts_with, ◌==◌,
  nat_equality, list_equality, if◌then◌else◌,
}
use coder_er.Security.Actors.{ActorType, ActorRole, actor_roles, role_name}
use coder_er.Security.Permissions.{normalize_actor_roles}
use coder_er.Security.Context.{
  Platform, TrustedContextSignatureInput, type_name, verify_trusted_context_signature,
  is_trusted_context_fresh,
}

pub record CodeerRequestContext : Type 0 where
  pub request_id : Text
  pub correlation_id : Text
  pub organization_id : Text
  pub actor_id : Text
  pub actor_type : ActorType
  pub actor_roles : List ActorRole
  pub trusted_context : Bool

pub record RequestContextOptions : Type 0 where
  pub require_tenant_context : Bool
  pub default_organization_id : Text
  pub require_signed_context : Bool
  pub signing_secrets : Option (List Text)
  pub signature_max_age_seconds : ℕ

-- The headers that the middleware reads.
pub record ContextualRequest : Type 0 where
  pub method : Text
  pub path : Text
  pub original_url : Text
  pub request_id : Option Text
  pub correlation_id : Option Text
  pub organization_id : Option Text
  pub actor_id : Option Text
  pub actor_type : Option Text
  pub actor_roles : Option Text
  pub timestamp : Option Text
  pub signature : Option Text

pub data Rejection : Type 0 where
  unsupported_role organization_required organization_not_uuid not_signed : Rejection

pub data Handled : Type 0 where
  next : CodeerRequestContext → Handled
  rejected : Rejection → Handled

abbrev pub between : ℕ → ℕ → ℕ → Bool
between low high c = leb low c && leb c high

-- `/^[A-Za-z0-9._:@/-]{1,128}$/`
abbrev pub is_safe_code : ℕ → Bool
is_safe_code c =
    between 65 90 c || between 97 122 c || between 48 57 c || contains (codes "._:@/-") c

abbrev pub is_safe_context_id : Text → Bool
is_safe_context_id t = all is_safe_code t && between 1 128 (length t)

abbrev pub safe_header : Option Text → Option Text
safe_header none = none
safe_header (some value) = if is_safe_context_id value then some value else none

abbrev pub or_else {ℓ} : {A : Type ℓ} → Option A → A → A
or_else none a = a
or_else (some a) b = a

abbrev pub actor_types : List ActorType
actor_types = ActorType.user ∷ ActorType.service ∷ ActorType.agent ∷ ActorType.system ∷ []

abbrev pub parse_actor_type : Option Text → ActorType
parse_actor_type none = ActorType.user
parse_actor_type (some value) =
    or_else (find (λ t. type_name t == value) actor_types) ActorType.user

-- `String.prototype.trim`
abbrev pub is_space : ℕ → Bool
is_space c =
    between 9 13 c
    || between 8192 8202 c
    || contains (32 ∷ 160 ∷ 5760 ∷ 8232 ∷ 8233 ∷ 8239 ∷ 8287 ∷ 12288 ∷ 65279 ∷ []) c

abbrev pub trim_start : Text → Text
trim_start [] = []
trim_start (c ∷ t) = let rest = trim_start t in if is_space c then rest else c ∷ t

abbrev pub drop_space : ℕ → Text → Text
drop_space c [] = if is_space c then [] else c ∷ []
drop_space c (d ∷ t) = c ∷ d ∷ t

abbrev pub trim_end : Text → Text
trim_end [] = []
trim_end (c ∷ t) = drop_space c (trim_end t)

abbrev pub trim : Text → Text
trim t = trim_end (trim_start t)

abbrev pub put_code : ℕ → List Text → List Text
put_code c [] = (c ∷ []) ∷ []
put_code c (t ∷ ts) = (c ∷ t) ∷ ts

-- `split(',')`
abbrev pub split_commas : Text → List Text
split_commas [] = [] ∷ []
split_commas (c ∷ t) = let rest = split_commas t in if c == 44 then [] ∷ rest else put_code c rest

abbrev pub is_filled : Text → Bool
is_filled [] = false
is_filled (c ∷ t) = true

abbrev pub role_of : Text → Option ActorRole
role_of name = find (λ r. role_name r == name) actor_roles

-- The roles, if every name is that of a role.
abbrev pub both : Option ActorRole → Option (List ActorRole) → Option (List ActorRole)
both none rs = none
both (some r) none = none
both (some r) (some rs) = some (r ∷ rs)

abbrev pub roles_of : List Text → Option (List ActorRole)
roles_of [] = some []
roles_of (name ∷ names) = both (role_of name) (roles_of names)

-- `undefined`, `null` or the roles.
pub data ParsedRoles : Type 0 where
  absent unsupported : ParsedRoles
  parsed : List ActorRole → ParsedRoles

abbrev pub supported : Option (List ActorRole) → ParsedRoles
supported none = unsupported
supported (some roles) = parsed (normalize_actor_roles roles)

abbrev pub parse_names : List Text → ParsedRoles
parse_names names =
    if not (between 1 10 (length names)) then unsupported else supported (roles_of names)

unfoldable pub parse_actor_roles : Option Text → ParsedRoles
parse_actor_roles none = absent
parse_actor_roles (some []) = absent
parse_actor_roles (some (c ∷ value)) =
    parse_names (keep is_filled (map trim (split_commas (c ∷ value))))

abbrev pub local_default_roles : ActorType → List ActorRole
local_default_roles ActorType.service = ActorRole.service ∷ []
local_default_roles ActorType.system = ActorRole.service ∷ []
local_default_roles _ = ActorRole.organization_owner ∷ []

abbrev pub is_hex : ℕ → Bool
is_hex c = between 48 57 c || between 97 102 c

abbrev pub repeated : ℕ → (ℕ → Bool) → List (ℕ → Bool)
repeated zero test = []
repeated (suc n) test = test ∷ repeated n test

abbrev pub is_dash : ℕ → Bool
is_dash c = c == 45

abbrev pub matches : List (ℕ → Bool) → Text → Bool
matches [] [] = true
matches [] (c ∷ t) = false
matches (test ∷ tests) [] = false
matches (test ∷ tests) (c ∷ t) = test c && matches tests t

-- The pattern of a UUID, case aside.
abbrev pub uuid_tests : List (ℕ → Bool)
uuid_tests =
    repeated 8 is_hex
    ++ (is_dash ∷ repeated 4 is_hex)
    ++ (is_dash ∷ between 49 53 ∷ repeated 3 is_hex)
    ++ (is_dash ∷ contains (codes "89ab") ∷ repeated 3 is_hex)
    ++ (is_dash ∷ repeated 12 is_hex)

unfoldable pub is_uuid : Text → Bool
is_uuid t = matches uuid_tests (lower t)

abbrev pub is_exempt : Text → Bool
is_exempt path =
    starts_with path (codes "/api/v1/health") || starts_with path (codes "/api/v1/webhooks/github")

abbrev pub ingress_actor : Text → Text
ingress_actor path =
    if starts_with path (codes "/api/v1/webhooks/github")
    then codes "github-webhook-ingress"
    else codes "codeer-health-check"

abbrev pub is_some {ℓ} : {A : Type ℓ} → Option A → Bool
is_some none = false
is_some (some a) = true

abbrev pub is_given : Option Text → Bool
is_given none = false
is_given (some t) = is_filled t

module _ (p : Platform) (options : RequestContextOptions) (now : ℕ) (fresh_id : Text)
    (request : ContextualRequest) where
  abbrev pub request_id_of : Text
  request_id_of = or_else (safe_header request.request_id) fresh_id

  abbrev pub correlation_id_of : Text
  correlation_id_of = or_else (safe_header request.correlation_id) request_id_of

  abbrev pub organization_id_of : Text
  organization_id_of = or_else request.organization_id options.default_organization_id

  abbrev pub actor_id_of : Text
  actor_id_of = or_else (safe_header request.actor_id) (codes "local-development-user")

  abbrev pub signature_input : List ActorRole → Text → TrustedContextSignatureInput
  signature_input roles timestamp = record {
    method = request.method;
    path = request.original_url;
    request_id = request_id_of;
    correlation_id = correlation_id_of;
    organization_id = organization_id_of;
    actor_id = actor_id_of;
    actor_type = parse_actor_type request.actor_type;
    actor_roles = roles;
    timestamp = timestamp;
  }

  abbrev pub is_signed : List ActorRole → Option Text → Option (List Text) → Bool
  is_signed roles none secrets = false
  is_signed roles (some []) secrets = false
  is_signed roles (some (c ∷ timestamp)) none = false
  is_signed roles (some (c ∷ timestamp)) (some []) = false
  is_signed roles (some (c ∷ timestamp)) (some (s ∷ secrets)) =
      is_trusted_context_fresh p (c ∷ timestamp) options.signature_max_age_seconds now
      && verify_trusted_context_signature p (signature_input roles (c ∷ timestamp)) (s ∷ secrets)
          request.signature

  abbrev pub context_of : List ActorRole → Bool → CodeerRequestContext
  context_of roles trusted = record {
    request_id = request_id_of;
    correlation_id = correlation_id_of;
    organization_id = organization_id_of;
    actor_id = actor_id_of;
    actor_type = parse_actor_type request.actor_type;
    actor_roles = roles;
    trusted_context = trusted;
  }

  unfoldable pub with_roles : List ActorRole → Handled
  with_roles roles =
      if options.require_tenant_context && not (is_given request.organization_id)
      then rejected organization_required
      else if not (is_uuid organization_id_of)
      then rejected organization_not_uuid
      else if options.require_signed_context
          && not (is_signed roles request.timestamp options.signing_secrets)
      then rejected not_signed
      else next (context_of roles (is_signed roles request.timestamp options.signing_secrets))

  unfoldable pub by_roles : ParsedRoles → Handled
  unfolding with_roles
  by_roles unsupported = rejected unsupported_role
  by_roles absent = with_roles (local_default_roles (parse_actor_type request.actor_type))
  by_roles (parsed roles) = with_roles roles

  unfoldable pub handle_request : Handled
  unfolding by_roles
  handle_request =
      if is_exempt request.path
      then next (record {
        request_id = request_id_of;
        correlation_id = correlation_id_of;
        organization_id = options.default_organization_id;
        actor_id = ingress_actor request.path;
        actor_type = ActorType.system;
        actor_roles = ActorRole.service ∷ [];
        trusted_context = true;
      })
      else by_roles (parse_actor_roles request.actor_roles)
