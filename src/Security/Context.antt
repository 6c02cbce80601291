-- ===== src/Security/Context.antt =====
-- The signed identity of a request (packages/security/src/index.ts). HMAC-SHA-256 in base64url, the
-- bytes of a string in UTF-8 and `Date.parse` are parameters.
pub mod Payload
use coder_er.Base.{
  ℕ, suc, ◌+◌, ◌-◌, ◌*◌, Bool, true, false, not, ◌&&◌, ◌||◌, Option, none, some, List, [], ◌∷◌,
  ◌++◌, map, any, length, ltb, leb, Text, codes, ◌==◌, nat_equality, list_equality, if◌then◌else◌,
  Result, ok, err, throw_if, ◌>>=◌, ◌>>◌,
}
use coder_er.Security.Actors.{ActorType, ActorRole, role_name}
use coder_er.Security.Permissions.{normalize_actor_roles}

-- Milliseconds since 1970; `before n` is -(n + 1).
pub data Instant : Type 0 where
  since before : ℕ → Instant

-- What the module takes from its platform.
pub record Platform : Type 0 where
  pub hmac : Text → Text → Text
  pub utf8 : Text → List ℕ
  pub parse_date : Text → Option Instant

pub record TrustedContextSignatureInput : Type 0 where
  pub method : Text
  pub path : Text
  pub request_id : Text
  pub correlation_id : Text
  pub organization_id : Text
  pub actor_id : Text
  pub actor_type : ActorType
  pub actor_roles : List ActorRole
  pub timestamp : Text

abbrev pub type_name : ActorType → Text
type_name ActorType.user = codes "USER"
type_name ActorType.service = codes "SERVICE"
type_name ActorType.agent = codes "AGENT"
type_name ActorType.system = codes "SYSTEM"

-- `toUpperCase` of an ASCII text.
abbrev pub upper_code : ℕ → ℕ
upper_code c = if leb 97 c && leb c 122 then c - 32 else c

abbrev pub upper : Text → Text
upper = map upper_code

-- `join` with a separator of one character.
abbrev pub join_with : ℕ → List Text → Text
join_with c [] = []
join_with c (t ∷ []) = t
join_with c (t ∷ u ∷ ts) = t ++ c ∷ join_with c (u ∷ ts)

abbrev pub signed_fields : TrustedContextSignatureInput → List Text
signed_fields x =
    codes "v1"
    ∷ upper x.method
    ∷ x.path
    ∷ x.request_id
    ∷ x.correlation_id
    ∷ x.organization_id
    ∷ x.actor_id
    ∷ type_name x.actor_type
    ∷ join_with 44 (map role_name (normalize_actor_roles x.actor_roles))
    ∷ x.timestamp
    ∷ []

unfoldable pub context_signature_payload : TrustedContextSignatureInput → Text
context_signature_payload x = join_with 10 (signed_fields x)

pub data SigningError : Type 0 where
  secret_too_short : SigningError

module _ (p : Platform) where
  unfoldable pub sign_trusted_context :
      TrustedContextSignatureInput → Text → Result SigningError Text
  sign_trusted_context x secret = do
    throw_if (ltb (length secret) 32) secret_too_short
    ok (p.hmac secret (context_signature_payload x))

  abbrev pub equals_signature : Text → Result SigningError Text → Bool
  equals_signature signature (ok expected) = p.utf8 expected == p.utf8 signature
  equals_signature signature (err _) = false

  -- `!signature` also refuses the empty text.
  unfoldable pub verify_trusted_context_signature :
      TrustedContextSignatureInput → List Text → Option Text → Bool
  unfolding sign_trusted_context
  verify_trusted_context_signature x secrets none = false
  verify_trusted_context_signature x secrets (some []) = false
  verify_trusted_context_signature x secrets (some (c ∷ signature)) =
      any
        (λ secret.
          not (ltb (length secret) 32)
          && equals_signature (c ∷ signature) (sign_trusted_context x secret))
        secrets

  abbrev pub skew : ℕ → Instant → ℕ
  skew now (since t) = if leb t now then now - t else t - now
  skew now (before n) = now + suc n

  unfoldable pub is_trusted_context_fresh : Text → ℕ → ℕ → Bool
  is_trusted_context_fresh timestamp max_age_seconds now = fresh (p.parse_date timestamp)
    where
      fresh : Option Instant → Bool
      fresh none = false
      fresh (some t) = leb (skew now t) (max_age_seconds * 1000)
