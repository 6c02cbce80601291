-- ===== src/Security/Context/Payload.antt =====
-- The payload that is signed determines the identity.
use coder_er.Base.{
  ℕ, ◌≡◌, ◌≢◌, refl, sym, ap, true, false, Option, some, List, [], ◌∷◌, ◌++◌, map, find, Text,
  codes, contains, contains-append, ◌==◌, nat_equality, list_equality, ==_refl, All, arith,
}
use coder_er.Security.Actors.{ActorType, ActorRole, actor_roles, role_name, organization_owner}
use coder_er.Security.Permissions.{normalize_actor_roles}
use coder_er.Security.Context.{
  TrustedContextSignatureInput, type_name, upper, join_with, signed_fields,
  context_signature_payload,
}

module _ (c : ℕ) where
  abbrev pub IsFree : Text → Type 0
  IsFree t = contains t c ≡ false

  cut : (s s' t t' : Text) → IsFree s → IsFree s' → s ++ c ∷ t ≡ s' ++ c ∷ t' → (s ≡ s') × (t ≡ t')
  cut [] [] t t' free free' e = (refl, cc)
  cut [] (d ∷ s') t t' free free' e = absurd (ground (arith, ==_refl c))
  cut (d ∷ s) [] t t' free free' e = absurd (ground (arith, ==_refl c))
  cut (d ∷ s) (d' ∷ s') t t' free free' e =
      let tails : s ++ c ∷ t ≡ s' ++ c ∷ t' = cc in
      let (same, rest) = cut s s' t t' (ground (arith, free)) (ground (arith, free')) tails in
      (cc, rest)

  not_free : (y t : Text) → contains (y ++ c ∷ t) c ≡ true
  not_free y t = ground (arith, contains-append y (c ∷ t) c, ==_refl c)

  join_with-injective :
      (x y : Text) (xs ys : List Text)
      → All IsFree (x ∷ xs)
      → All IsFree (y ∷ ys)
      → join_with c (x ∷ xs) ≡ join_with c (y ∷ ys)
      → x ∷ xs ≡ y ∷ ys
  join_with-injective x y [] [] free free' e = cc
  join_with-injective x y [] (z ∷ ys) free free' e =
      let one : contains x c ≡ true = rw e (not_free y (join_with c (z ∷ ys))) in cc (free.0)
  join_with-injective x y (z ∷ xs) [] free free' e =
      let one : contains y c ≡ true = rw (sym e) (not_free x (join_with c (z ∷ xs))) in cc (free'.0)
  join_with-injective x y (z ∷ xs) (z' ∷ ys) free free' e =
      let (same, rest) = cut x y (join_with c (z ∷ xs)) (join_with c (z' ∷ ys)) free.0 free'.0 e in
      cc (same, join_with-injective z z' xs ys free.1 free'.1 rest)

IsFree-join_with :
    (c d : ℕ) (ts : List Text) → (d == c) ≡ false → All (IsFree c) ts → IsFree c (join_with d ts)
IsFree-join_with c d [] other free = refl
IsFree-join_with c d (t ∷ []) other free = free.0
IsFree-join_with c d (t ∷ u ∷ ts) other free = ground (
  arith,
  contains-append t (d ∷ join_with d (u ∷ ts)) c,
  IsFree-join_with c d (u ∷ ts) other free.1,
  free.0,
)

abbrev role_named : Text → Option ActorRole
role_named name = find (λ r. role_name r == name) actor_roles

role_named-role_name : (r : ActorRole) → role_named (role_name r) ≡ some r
role_named-role_name organization_owner = refl
role_named-role_name _ = refl

role_name-injective : (r s : ActorRole) → role_name r ≡ role_name s → r ≡ s
role_name-injective r s e = cc (role_named-role_name r, role_named-role_name s, ap role_named e)

abbrev type_named : Text → Option ActorType
type_named name =
    find (λ t. type_name t == name)
      (ActorType.user ∷ ActorType.service ∷ ActorType.agent ∷ ActorType.system ∷ [])

type_named-type_name : (t : ActorType) → type_named (type_name t) ≡ some t
type_named-type_name ActorType.user = refl
type_named-type_name _ = refl

type_name-injective : (t u : ActorType) → type_name t ≡ type_name u → t ≡ u
type_name-injective t u e = cc (type_named-type_name t, type_named-type_name u, ap type_named e)

names-injective : (rs ss : List ActorRole) → map role_name rs ≡ map role_name ss → rs ≡ ss
names-injective [] [] e = refl
names-injective [] (s ∷ ss) e = cc
names-injective (r ∷ rs) [] e = cc
names-injective (r ∷ rs) (s ∷ ss) e =
    let here : role_name r ≡ role_name s = cc in
    let rest : map role_name rs ≡ map role_name ss = cc in
    cc (role_name-injective r s here, names-injective rs ss rest)

role_name-IsFree : (r : ActorRole) → IsFree 44 (role_name r) × IsFree 10 (role_name r)
role_name-IsFree organization_owner = (refl, refl)
role_name-IsFree _ = (refl, refl)

names-IsFree :
    (rs : List ActorRole) → All (IsFree 44) (map role_name rs) × All (IsFree 10) (map role_name rs)
names-IsFree [] = (tt, tt)
names-IsFree (r ∷ rs) =
    let (comma, feed) = role_name-IsFree r in
    let (commas, feeds) = names-IsFree rs in ((comma, commas), (feed, feeds))

some_name : (r : ActorRole) (rs : List ActorRole) → join_with 44 (map role_name (r ∷ rs)) ≢ []
some_name organization_owner [] e = cc
some_name organization_owner (s ∷ rs) e = cc
some_name _ [] e = cc
some_name _ (s ∷ rs) e = cc

joined_names-injective :
    (rs ss : List ActorRole)
    → join_with 44 (map role_name rs) ≡ join_with 44 (map role_name ss)
    → rs ≡ ss
joined_names-injective [] [] e = refl
joined_names-injective [] (s ∷ ss) e = absurd (some_name s ss (sym e))
joined_names-injective (r ∷ rs) [] e = absurd (some_name r rs e)
joined_names-injective (r ∷ rs) (s ∷ ss) e = names-injective (r ∷ rs) (s ∷ ss) (
    join_with-injective 44 (role_name r) (role_name s) (map role_name rs) (map role_name ss)
      (names-IsFree (r ∷ rs)).0 (names-IsFree (s ∷ ss)).0 e)

upper-IsFree : (t : Text) → IsFree 10 t → IsFree 10 (upper t)
upper-IsFree [] free = refl
upper-IsFree (c ∷ t) free = ground (arith, upper-IsFree t, free)

type_name-IsFree : (t : ActorType) → IsFree 10 (type_name t)
type_name-IsFree ActorType.user = refl
type_name-IsFree _ = refl

-- The fields that a client supplies hold no line feed.
abbrev pub IsOneLine : TrustedContextSignatureInput → Type 0
IsOneLine x =
    IsFree 10 x.method
    × IsFree 10 x.path
    × IsFree 10 x.request_id
    × IsFree 10 x.correlation_id
    × IsFree 10 x.organization_id
    × IsFree 10 x.actor_id
    × IsFree 10 x.timestamp

signed_fields-IsFree :
    (x : TrustedContextSignatureInput) → IsOneLine x → All (IsFree 10) (signed_fields x)
signed_fields-IsFree x (m, p, r, c, o, a, t) =
    let roles : IsFree 10 (join_with 44 (map role_name (normalize_actor_roles x.actor_roles))) =
      IsFree-join_with 10 44 (map role_name (normalize_actor_roles x.actor_roles)) refl
        (names-IsFree (normalize_actor_roles x.actor_roles)).1 in
    let last : All (IsFree 10)
        (join_with 44 (map role_name (normalize_actor_roles x.actor_roles)) ∷ x.timestamp ∷ []) =
      (roles, (t, tt)) in
    (
      refl,
      (upper-IsFree x.method m, (p, (r, (c, (o, (a, (type_name-IsFree x.actor_type, last))))))),
    )

-- What a signature is for: the request up to the case of its method, and the actor with the
-- normalized roles.
abbrev pub SameIdentity : TrustedContextSignatureInput → TrustedContextSignatureInput → Type 0
SameIdentity x y =
    (upper x.method ≡ upper y.method)
    × (x.path ≡ y.path)
    × (x.request_id ≡ y.request_id)
    × (x.correlation_id ≡ y.correlation_id)
    × (x.organization_id ≡ y.organization_id)
    × (x.actor_id ≡ y.actor_id)
    × (x.actor_type ≡ y.actor_type)
    × (normalize_actor_roles x.actor_roles ≡ normalize_actor_roles y.actor_roles)
    × (x.timestamp ≡ y.timestamp)

same_fields :
    (x y : TrustedContextSignatureInput) → signed_fields x ≡ signed_fields y → SameIdentity x y
same_fields x y e = (
  cc,
  cc,
  cc,
  cc,
  cc,
  cc,
  type_name-injective x.actor_type y.actor_type (cc),
  joined_names-injective (normalize_actor_roles x.actor_roles) (normalize_actor_roles y.actor_roles)
      (cc),
  cc,
)

-- Two inputs without line feeds in their fields have the same payload only if they are the same
-- identity: nothing can be moved from one signed field to another.
pub context_signature_payload-injective :
    (x y : TrustedContextSignatureInput)
    → IsOneLine x
    → IsOneLine y
    → context_signature_payload x ≡ context_signature_payload y
    → SameIdentity x y
unfolding context_signature_payload
context_signature_payload-injective x y one one' e = same_fields x y (
    join_with-injective 10 (codes "v1") (codes "v1") _ _ (signed_fields-IsFree x one)
      (signed_fields-IsFree y one') e)
