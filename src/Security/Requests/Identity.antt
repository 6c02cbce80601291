-- ===== src/Security/Requests/Identity.antt =====
-- Accepted contexts hold no line feed, so that a payload is that of one identity.
use coder_er.Base.{
  ℕ, ◌≡◌, refl, ap, subst, Bool, true, false, not, Option, none, some, List, [], ◌∷◌, all, Text,
  codes, contains, ◌==◌, nat_equality, arith, lower, Bool-cases, inl, inr, any,
}
use coder_er.Security.Permissions.{
  CodeerPermission, has_codeer_permission, role_permissions, permission_equality,
}
use coder_er.Security.Context.{Platform, context_signature_payload}
use coder_er.Security.Context.Payload.{IsFree, context_signature_payload-injective}
use coder_er.Security.Requests.{
  CodeerRequestContext, RequestContextOptions, ContextualRequest, next, is_safe_code,
  is_safe_context_id, safe_header, or_else, matches, uuid_tests, is_uuid, is_exempt, handle_request,
  request_id_of, organization_id_of,
}
use coder_er.Security.Requests.Trust.{signed_context, handle_request-IsAccepted}

safe-IsFree : (t : Text) → all is_safe_code t ≡ true → IsFree 10 t
safe-IsFree [] h = refl
safe-IsFree (c ∷ t) h = ground (arith, safe-IsFree t, h)

safe_or :
    (header : Option Text) (t : Text) → IsFree 10 t → IsFree 10 (or_else (safe_header header) t)
safe_or none t free = free
safe_or (some value) t free = elim (Bool-cases (is_safe_context_id value)) [
  | inl safe ↦ rw safe (safe-IsFree value (ground (arith, safe)))
  | inr other ↦ rw other free
]

matches-IsFree :
    (tests : List (ℕ → Bool)) (t : Text)
    → all (λ test. not (test 10)) tests ≡ true
    → matches tests t ≡ true
    → IsFree 10 t
matches-IsFree [] [] shut h = refl
matches-IsFree [] (c ∷ t) shut h = cc
matches-IsFree (test ∷ tests) [] shut h = refl
matches-IsFree (test ∷ tests) (c ∷ t) shut h = elim (Bool-cases (c == 10)) [
  | inl feed ↦
      let same : c ≡ 10 = (nat_equality.beq_iff c 10).0 feed in
      let fits : test 10 ≡ true = subst (λ d. test d ≡ true) same (ground (arith, h)) in
      ground (arith, shut, fits)
  | inr other ↦ ground (arith, other, matches-IsFree tests t, shut, h)
]

lower-IsFree : (t : Text) → IsFree 10 (lower t) → IsFree 10 t
lower-IsFree [] free = refl
lower-IsFree (c ∷ t) free = ground (arith, lower-IsFree t, free)

uuid-IsFree : (t : Text) → is_uuid t ≡ true → IsFree 10 t
unfolding is_uuid
uuid-IsFree t h = lower-IsFree t (matches-IsFree uuid_tests (lower t) refl h)

-- The identifiers of an accepted context.
abbrev IsOneLineContext : CodeerRequestContext → Type 0
IsOneLineContext c =
    IsFree 10 c.request_id
    × IsFree 10 c.correlation_id
    × IsFree 10 c.organization_id
    × IsFree 10 c.actor_id

-- What a request holds beside its headers, on one line.
abbrev pub IsOneLineRequest : ContextualRequest → Text → Text → Type 0
IsOneLineRequest request fresh_id timestamp =
    IsFree 10 request.method
    × IsFree 10 request.original_url
    × IsFree 10 fresh_id
    × IsFree 10 timestamp

accepted-IsOneLineContext :
    (p : Platform) (options : RequestContextOptions) (now : ℕ) (fresh_id : Text)
    (request : ContextualRequest) (context : CodeerRequestContext)
    → IsFree 10 fresh_id
    → is_exempt request.path ≡ false
    → handle_request p options now fresh_id request ≡ next context
    → IsOneLineContext context
accepted-IsOneLineContext p options now fresh_id request context free asked h =
    let (roles, (uuid, _, same)) =
      handle_request-IsAccepted p options now fresh_id request context asked h in
    let first : IsFree 10 (request_id_of p options now fresh_id request) =
      safe_or request.request_id fresh_id free in
    subst IsOneLineContext same (
      first,
      safe_or request.correlation_id _ first,
      uuid-IsFree (organization_id_of p options now fresh_id request) uuid,
      safe_or request.actor_id (codes "local-development-user") refl,
    )

-- Two accepted requests whose signed payloads are equal are the same actor of the same organization,
-- with the same permissions: a signature of one cannot serve another identity.
pub handle_request-same_identity :
    (p : Platform) (options : RequestContextOptions) (now now' : ℕ) (fresh_id fresh_id' : Text)
    (request request' : ContextualRequest) (context context' : CodeerRequestContext)
    (timestamp timestamp' : Text)
    → IsOneLineRequest request fresh_id timestamp
    → IsOneLineRequest request' fresh_id' timestamp'
    → is_exempt request.path ≡ false
    → is_exempt request'.path ≡ false
    → handle_request p options now fresh_id request ≡ next context
    → handle_request p options now' fresh_id' request' ≡ next context'
    → context_signature_payload (signed_context request context timestamp)
      ≡ context_signature_payload (signed_context request' context' timestamp')
    → (context.organization_id ≡ context'.organization_id)
      × (context.actor_id ≡ context'.actor_id)
      × (context.actor_type ≡ context'.actor_type)
      × ((permission : CodeerPermission)
          → has_codeer_permission context.actor_roles permission
            ≡ has_codeer_permission context'.actor_roles permission)
unfolding has_codeer_permission
handle_request-same_identity p options now now' fresh_id fresh_id' request request' context context'
      timestamp timestamp' (m, u, f, t) (m', u', f', t') asked asked' h h' e =
    let (r, c, o, a) = accepted-IsOneLineContext p options now fresh_id request context f asked h in
    let (r', c', o', a') =
      accepted-IsOneLineContext p options now' fresh_id' request' context' f' asked' h' in
    let (_, _, _, _, organization, actor, type, roles, _) =
      context_signature_payload-injective (signed_context request context timestamp)
        (signed_context request' context' timestamp') (m, u, r, c, o, a, t)
        (m', u', r', c', o', a', t') e in
    (
      organization,
      actor,
      type,
      λ permission. ap (any (λ r. contains (role_permissions r) permission)) roles,
    )
