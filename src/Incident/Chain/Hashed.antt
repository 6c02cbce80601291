-- ===== src/Incident/Chain/Hashed.antt =====
-- What the canonical text of a hashed event tells of the event.
use coder_er.Base.{
  ◌≡◌, ◌∙◌, ◌⊎◌, refl, sym, ap, if◌then◌else◌, Bool, true, false, Bool-cases, inl, inr, Text,
  Option, none, some,
}
use coder_er.Incident.Json.{
  Json, null, text, object, Members, no_members, member, insert_member, canonicalize,
  canonicalize_members,
}
use coder_er.Incident.Chain.{IncidentEventHashInput, or_null, hashed_members, hashed_object}

-- The same keys in the same places.
abbrev SameKeys : Members → Members → Type 0
SameKeys no_members no_members = Unit
SameKeys no_members (member l b ns) = ⊥
SameKeys (member k a ms) no_members = ⊥
SameKeys (member k a ms) (member l b ns) = (k ≡ l) × SameKeys ms ns

placed :
    (test : Bool) (key k l : Text) (a b c d : Json) (ms ns later later' : Members)
    → (if test then member key a (member k c ms) else member k c later)
      ≡ (if test then member key b (member l d ns) else member l d later')
    → ((a ≡ b) × (member k c ms ≡ member l d ns)) ⊎ ((c ≡ d) × (later ≡ later'))
placed true key k l a b c d ms ns later later' e = inl (cc, cc)
placed false key k l a b c d ms ns later later' e = inr (cc, cc)

object_entries : {ms ns : Members} → object ms ≡ object ns → ms ≡ ns
object_entries e = cc

or_null-injective :
    (f : Json → Json) (a b : Option Text)
    → f null ≡ null
    → ((t : Text) → f (text t) ≡ text t)
    → f (or_null a) ≡ f (or_null b)
    → a ≡ b
or_null-injective f none none n t h = refl
or_null-injective f none (some b) n t h = cc (h, n, t b)
or_null-injective f (some a) none n t h = cc (h, n, t a)
or_null-injective f (some a) (some b) n t h = cc (h, t a, t b)

module _ (not_after : Text → Text → Bool) where
  -- Members at the same places have the same canonical value.
  abbrev SameValues : Members → Members → Type 0
  SameValues no_members no_members = Unit
  SameValues no_members (member l b ns) = Unit
  SameValues (member k a ms) no_members = Unit
  SameValues (member k a ms) (member l b ns) =
      (canonicalize not_after a ≡ canonicalize not_after b) × SameValues ms ns

  insert_member-SameKeys :
      (key : Text) (a b : Json) (ms ns : Members)
      → SameKeys ms ns
      → SameKeys (insert_member not_after key a ms) (insert_member not_after key b ns)
  unfolding insert_member
  insert_member-SameKeys key a b no_members no_members same = (refl, tt)
  insert_member-SameKeys key a b no_members (member l d ns) same = absurd same
  insert_member-SameKeys key a b (member k c ms) no_members same = absurd same
  insert_member-SameKeys key a b (member k c ms) (member l d ns) same =
      elim (Bool-cases (not_after key l)) [
        | inl before ↦ rw (same.0, before) (refl, (refl, same.1))
        | inr after ↦ rw (same.0, after) (refl, insert_member-SameKeys key a b ms ns same.1)
      ]

  insert_member-injective :
      (key : Text) (a b : Json) (ms ns : Members)
      → SameKeys ms ns
      → insert_member not_after key a ms ≡ insert_member not_after key b ns
      → (a ≡ b) × (ms ≡ ns)
  unfolding insert_member
  insert_member-injective key a b no_members no_members same e = (cc, refl)
  insert_member-injective key a b no_members (member l d ns) same e = absurd same
  insert_member-injective key a b (member k c ms) no_members same e = absurd same
  insert_member-injective key a b (member k c ms) (member l d ns) same e =
      let chosen : (if not_after key l
            then member key a (member k c ms)
            else member k c (insert_member not_after key a ms))
          ≡ insert_member not_after key b (member l d ns) =
        ap
          (λ x.
            if not_after key x
            then member key a (member k c ms)
            else member k c (insert_member not_after key a ms))
          (sym same.0)
        ∙ e in
      elim (placed (not_after key l) key k l a b c d ms ns _ _ chosen) [
        | inl (value, rest) ↦ (value, rest)
        | inr (value, later) ↦
            let (first, rest) = insert_member-injective key a b ms ns same.1 later in
            (first, cc (same.0, value, rest))
      ]

  canonicalize_members-SameKeys :
      (ms ns : Members)
      → SameKeys ms ns
      → SameKeys (canonicalize_members not_after ms) (canonicalize_members not_after ns)
  unfolding canonicalize_members
  canonicalize_members-SameKeys no_members no_members same = tt
  canonicalize_members-SameKeys no_members (member l b ns) same = absurd same
  canonicalize_members-SameKeys (member k a ms) no_members same = absurd same
  canonicalize_members-SameKeys (member k a ms) (member l b ns) same =
      rw (same.0) (insert_member-SameKeys l _ _ _ _ (canonicalize_members-SameKeys ms ns same.1))

  canonicalize_members-SameValues :
      (ms ns : Members)
      → SameKeys ms ns
      → canonicalize_members not_after ms ≡ canonicalize_members not_after ns
      → SameValues ms ns
  unfolding canonicalize_members
  canonicalize_members-SameValues no_members no_members same e = tt
  canonicalize_members-SameValues no_members (member l b ns) same e = absurd same
  canonicalize_members-SameValues (member k a ms) no_members same e = absurd same
  canonicalize_members-SameValues (member k a ms) (member l b ns) same e =
      let moved : insert_member not_after l (canonicalize not_after a)
            (canonicalize_members not_after ms)
          ≡ insert_member not_after l (canonicalize not_after b)
              (canonicalize_members not_after ns) =
        ap
          (λ x.
            insert_member not_after x (canonicalize not_after a)
              (canonicalize_members not_after ms))
          (sym same.0)
        ∙ e in
      let (value, rest) =
        insert_member-injective l _ _ _ _ (canonicalize_members-SameKeys ms ns same.1) moved in
      (value, canonicalize_members-SameValues ms ns same.1 rest)

  -- The same event, its payload up to the order of the keys of its objects.
  pub record IsSameEvent (a b : IncidentEventHashInput) : Type 0 where
    pub incident_id : a.incident_id ≡ b.incident_id
    pub sequence : a.sequence ≡ b.sequence
    pub kind : a.kind ≡ b.kind
    pub payload : canonicalize not_after a.payload ≡ canonicalize not_after b.payload
    pub occurred_at : a.occurred_at ≡ b.occurred_at
    pub actor_type : a.actor_type ≡ b.actor_type
    pub actor_id : a.actor_id ≡ b.actor_id
    pub request_id : a.request_id ≡ b.request_id
    pub correlation_id : a.correlation_id ≡ b.correlation_id
    pub causation_id : a.causation_id ≡ b.causation_id
    pub previous_hash : a.previous_hash ≡ b.previous_hash

  -- The canonical object that is hashed tells the event.
  pub hashed_object-IsSameEvent :
      (a b : IncidentEventHashInput)
      → canonicalize not_after (hashed_object a) ≡ canonicalize not_after (hashed_object b)
      → IsSameEvent a b
  unfolding hashed_object canonicalize
  hashed_object-IsSameEvent a b e =
      let entries = object_entries e in
      let (
        actor,
        (
          actor_type,
          (
            causation,
            (
              correlation,
              (incident, (occurred, (payload, (previous, (request, (sequence, (kind, _))))))),
            ),
          ),
        ),
      ) =
        canonicalize_members-SameValues (hashed_members a) (hashed_members b)
          (refl, (refl, (refl, (refl, (refl, (refl, (refl, (refl, (refl, (refl, (refl, tt)))))))))))
          entries in
      record {
        incident_id = cc incident;
        sequence = cc sequence;
        kind = cc kind;
        payload = payload;
        occurred_at = cc occurred;
        actor_type = cc actor_type;
        actor_id = or_null-injective (canonicalize not_after) _ _ refl (λ t. refl) actor;
        request_id = or_null-injective (canonicalize not_after) _ _ refl (λ t. refl) request;
        correlation_id =
            or_null-injective (canonicalize not_after) _ _ refl (λ t. refl) correlation;
        causation_id = or_null-injective (canonicalize not_after) _ _ refl (λ t. refl) causation;
        previous_hash = or_null-injective (canonicalize not_after) _ _ refl (λ t. refl) previous;
      }
