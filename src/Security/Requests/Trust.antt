-- ===== src/Security/Requests/Trust.antt =====
-- What an accepted request tells, when signed contexts are required.
use coder_er.Base.{
  ℕ, ◌≤◌, ◌≡◌, refl, subst, Bool, true, false, not, ◌&&◌, Option, none, some, List, [], ◌∷◌, any,
  Text, contains, ◌==◌, nat_equality, list_equality, ==_refl, arith, if◌then◌else◌, ltb, length,
  Bool-cases, inl, inr,
}
use coder_er.Security.Actors.{ActorRole}
use coder_er.Security.Context.{
  Platform, TrustedContextSignatureInput, context_signature_payload, sign_trusted_context,
  verify_trusted_context_signature, equals_signature, is_trusted_context_fresh,
}
use coder_er.Security.Requests.{
  CodeerRequestContext, RequestContextOptions, ContextualRequest, Rejection, next, rejected,
  is_uuid, is_exempt, is_signed, signature_input, context_of, with_roles, by_roles, handle_request,
  parse_actor_roles, ParsedRoles, absent, unsupported, parsed, organization_id_of, is_given,
  organization_required, organization_not_uuid, not_signed,
}

any-found :
    (f : Text → Bool) (xs : List Text)
    → any f xs ≡ true
    → (x : Text) × (contains xs x ≡ true) × (f x ≡ true)
any-found f [] h = cc
any-found f (x ∷ xs) h = elim (Bool-cases (f x)) [
  | inl here ↦ (x, ground (arith, ==_refl x), here)
  | inr other ↦
      let rest : any f xs ≡ true = ground (arith, h, other) in
      let (y, member, holds) = any-found f xs rest in (y, ground (arith, member), holds)
]

gates :
    (a b c : Bool) (r s t : Rejection) {x y : CodeerRequestContext}
    → (if a then rejected r else if b then rejected s else if c then rejected t else next x)
      ≡ next y
    → (a ≡ false) × (b ≡ false) × (c ≡ false) × (x ≡ y)
gates true b c r s t h = cc
gates false true c r s t h = cc
gates false false true r s t h = cc
gates false false false r s t h = (refl, refl, refl, cc)

-- A signature of `x` by one of the secrets, which has at least 32 characters.
abbrev pub IsSignedBy : Platform → TrustedContextSignatureInput → List Text → Option Text → Type 0
IsSignedBy p x secrets signature =
    (secret : Text) × (s : Text) × (contains secrets secret ≡ true)
    × (32 ≤ length secret)
    × (signature ≡ some s)
    × (p.utf8 (p.hmac secret (context_signature_payload x)) ≡ p.utf8 s)

equals-sign :
    (p : Platform) (x : TrustedContextSignatureInput) (s k : Text)
    → ltb (length k) 32 ≡ false
    → equals_signature p s (sign_trusted_context p x k) ≡ true
    → p.utf8 (p.hmac k (context_signature_payload x)) ≡ p.utf8 s
unfolding sign_trusted_context
equals-sign p x s k long h =
    let equal : (p.utf8 (p.hmac k (context_signature_payload x)) == p.utf8 s) ≡ true =
      rw long at h in
    ((list_equality {A = ℕ}).beq_iff _ _).0 equal

verify-IsSignedBy :
    (p : Platform) (x : TrustedContextSignatureInput) (secrets : List Text)
    (signature : Option Text)
    → verify_trusted_context_signature p x secrets signature ≡ true
    → IsSignedBy p x secrets signature
unfolding verify_trusted_context_signature
verify-IsSignedBy p x secrets none h = cc
verify-IsSignedBy p x secrets (some []) h = cc
verify-IsSignedBy p x secrets (some (c ∷ s)) h =
    let (secret, member, holds) =
      any-found
        (λ k. not (ltb (length k) 32) && equals_signature p (c ∷ s) (sign_trusted_context p x k))
        secrets h in
    let long : ltb (length secret) 32 ≡ false = ground (arith, holds) in
    (
      secret,
      c ∷ s,
      member,
      ground (arith, long),
      refl,
      equals-sign p x (c ∷ s) secret long (ground (arith, holds)),
    )

-- What is signed of a request and its context.
abbrev pub signed_context :
    ContextualRequest → CodeerRequestContext → Text → TrustedContextSignatureInput
signed_context request context timestamp = record {
  method = request.method;
  path = request.original_url;
  request_id = context.request_id;
  correlation_id = context.correlation_id;
  organization_id = context.organization_id;
  actor_id = context.actor_id;
  actor_type = context.actor_type;
  actor_roles = context.actor_roles;
  timestamp = timestamp;
}

-- Why a context is trusted: its timestamp is fresh, and its identity is signed.
abbrev pub IsTrusted :
    Platform → RequestContextOptions → ℕ → Text → ContextualRequest → CodeerRequestContext → Type 0
IsTrusted p options now fresh_id request context =
    (timestamp : Text) × (secrets : List Text) × (request.timestamp ≡ some timestamp)
    × (options.signing_secrets ≡ some secrets)
    × (is_trusted_context_fresh p timestamp options.signature_max_age_seconds now ≡ true)
    × IsSignedBy p (signed_context request context timestamp) secrets request.signature

module _ (p : Platform) (options : RequestContextOptions) (now : ℕ) (fresh_id : Text)
    (request : ContextualRequest) where
  is_signed-found :
      (roles : List ActorRole) (stamp : Option Text) (keys : Option (List Text))
      → is_signed p options now fresh_id request roles stamp keys ≡ true
      → (timestamp : Text) × (secrets : List Text) × (stamp ≡ some timestamp)
        × (keys ≡ some secrets)
        × (is_trusted_context_fresh p timestamp options.signature_max_age_seconds now ≡ true)
        × IsSignedBy p
            (signature_input p options now fresh_id request roles timestamp)
            secrets
            request.signature
  is_signed-found roles none keys h = cc
  is_signed-found roles (some []) keys h = cc
  is_signed-found roles (some (c ∷ t)) none h = cc
  is_signed-found roles (some (c ∷ t)) (some []) h = cc
  is_signed-found roles (some (c ∷ t)) (some (k ∷ ks)) h = (
    c ∷ t,
    k ∷ ks,
    refl,
    refl,
    ground (arith, h),
    verify-IsSignedBy p _ (k ∷ ks) request.signature (ground (arith, h)),
  )

  -- The context that is accepted, and the tests that it passed.
  abbrev pub IsAccepted : List ActorRole → CodeerRequestContext → Type 0
  IsAccepted roles context =
      (is_uuid (organization_id_of p options now fresh_id request) ≡ true)
      × ((options.require_signed_context
            && not (
                is_signed p options now fresh_id request roles request.timestamp
                  options.signing_secrets))
          ≡ false)
      × (context_of p options now fresh_id request roles (
            is_signed p options now fresh_id request roles request.timestamp
              options.signing_secrets)
          ≡ context)

  with_roles-IsAccepted :
      (roles : List ActorRole) (context : CodeerRequestContext)
      → with_roles p options now fresh_id request roles ≡ next context
      → IsAccepted roles context
  unfolding with_roles
  with_roles-IsAccepted roles context h =
      let (_, uuid, signed, same) =
        gates (options.require_tenant_context && not (is_given request.organization_id))
          (not (is_uuid (organization_id_of p options now fresh_id request)))
          (options.require_signed_context
            && not (
                is_signed p options now fresh_id request roles request.timestamp
                  options.signing_secrets))
          organization_required organization_not_uuid not_signed h in
      (ground (arith, uuid), signed, same)

  by_roles-IsAccepted :
      (roles : ParsedRoles) (context : CodeerRequestContext)
      → by_roles p options now fresh_id request roles ≡ next context
      → (accepted : List ActorRole) × IsAccepted accepted context
  unfolding by_roles
  by_roles-IsAccepted unsupported context h = cc
  by_roles-IsAccepted absent context h = (_, with_roles-IsAccepted _ context h)
  by_roles-IsAccepted (parsed roles) context h = (roles, with_roles-IsAccepted roles context h)

  pub handle_request-IsAccepted :
      (context : CodeerRequestContext)
      → is_exempt request.path ≡ false
      → handle_request p options now fresh_id request ≡ next context
      → (accepted : List ActorRole) × IsAccepted accepted context
  unfolding handle_request
  handle_request-IsAccepted context asked h =
      by_roles-IsAccepted (parse_actor_roles request.actor_roles) context (rw asked at h)

  -- Where signed contexts are required, a request outside the health and webhook paths is accepted
  -- only with a fresh timestamp and a signature by one of the secrets, of at least 32 characters, of
  -- exactly the context that the handlers get, with the request's method, URL and timestamp.
  pub handle_request-IsTrusted :
      (context : CodeerRequestContext)
      → is_exempt request.path ≡ false
      → options.require_signed_context ≡ true
      → handle_request p options now fresh_id request ≡ next context
      → IsTrusted p options now fresh_id request context
  handle_request-IsTrusted context asked required h =
      let (roles, (_, signed, same)) = handle_request-IsAccepted context asked h in
      subst (IsTrusted p options now fresh_id request) same (
        is_signed-found roles request.timestamp options.signing_secrets
          (ground (arith, signed, required)))
