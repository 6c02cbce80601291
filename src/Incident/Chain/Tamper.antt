-- ===== src/Incident/Chain/Tamper.antt =====
-- What the last hash of a valid log proves of the events before it.
use coder_er.Base.{
  ◌∙◌, sym, ℕ, ◌+◌, ◌≡◌, refl, Bool, true, Option, none, some, Text, List, [], ◌∷◌, length, All,
  arith, ap, nat_equality, list_equality,
}
use coder_er.Incident.Json.{Json, canonicalize, canonical_json, digest_payload}
use coder_er.Incident.Chain.{
  IncidentEvent, IncidentEventHashInput, when_present, sort_events, hash_input, insert_event,
  hashed_object, build_incident_event_hash, verify_incident_event_chain,
}
use coder_er.Incident.Chain.Links.{text_beq_iff, IsChain, check_events-IsChain}
use coder_er.Incident.Chain.Hashed.{IsSameEvent, hashed_object-IsSameEvent}

-- What is hashed along a chain.
unfoldable pub chain_inputs : Option Text → List IncidentEvent → List IncidentEventHashInput
chain_inputs previous [] = []
chain_inputs previous (e ∷ es) = hash_input previous e ∷ chain_inputs (some e.event_hash) es

-- The hash of the last event.
unfoldable pub last_hash : Option Text → List IncidentEvent → Option Text
last_hash previous [] = previous
last_hash previous (e ∷ es) = last_hash (some e.event_hash) es

when_present-injective : (a b : Text) → when_present (some a) ≡ when_present (some b) → a ≡ b
when_present-injective a b h = ground (arith, text_beq_iff a [], text_beq_iff b [])

length-insert_event :
    (e : IncidentEvent) (es : List IncidentEvent) → length (insert_event e es) ≡ length es + 1
unfolding insert_event
length-insert_event e [] = omega arith
length-insert_event e (x ∷ es) = ground (arith, length-insert_event e es)

length-sort_events : (es : List IncidentEvent) → length (sort_events es) ≡ length es
unfolding sort_events
length-sort_events [] = refl
length-sort_events (e ∷ es) =
    omega (arith, length-sort_events es, length-insert_event e (sort_events es))

module _ (stringify : Json → Text) (sha256 : Text → Text) (not_after : Text → Text → Bool) where
  -- SHA-256 of the JSON text gives the canonical objects that are hashed for the two lists no
  -- collision.
  abbrev pub IsSeparated : List IncidentEventHashInput → List IncidentEventHashInput → Type 0
  IsSeparated us vs =
      All
        (λ a.
          All
            (λ b.
              sha256 (stringify (canonicalize not_after (hashed_object a)))
                ≡ sha256 (stringify (canonicalize not_after (hashed_object b)))
              → canonicalize not_after (hashed_object a) ≡ canonicalize not_after (hashed_object b))
            vs)
        us

  IsSeparated-tail :
      (us : List IncidentEventHashInput) (b : IncidentEventHashInput)
      (vs : List IncidentEventHashInput)
      → IsSeparated us (b ∷ vs)
      → IsSeparated us vs
  IsSeparated-tail [] b vs h = tt
  IsSeparated-tail (a ∷ us) b vs ((first, later), rest) = (later, IsSeparated-tail us b vs rest)

  -- Event by event the same.
  abbrev pub AreSameEvents : List IncidentEventHashInput → List IncidentEventHashInput → Type 0
  AreSameEvents [] [] = Unit
  AreSameEvents [] (b ∷ vs) = ⊥
  AreSameEvents (a ∷ us) [] = ⊥
  AreSameEvents (a ∷ us) (b ∷ vs) = IsSameEvent not_after a b × AreSameEvents us vs

  hashed :
      (a : IncidentEventHashInput)
      → build_incident_event_hash stringify sha256 not_after a
        ≡ sha256 (stringify (canonicalize not_after (hashed_object a)))
  unfolding build_incident_event_hash digest_payload canonical_json
  hashed a = refl

  same_inputs :
      (p q : Option Text) (k : ℕ) (xs ys : List IncidentEvent)
      → IsChain stringify sha256 not_after p k xs
      → IsChain stringify sha256 not_after q k ys
      → length xs ≡ length ys
      → IsSeparated (chain_inputs p xs) (chain_inputs q ys)
      → last_hash p xs ≡ last_hash q ys
      → (when_present p ≡ when_present q) × AreSameEvents (chain_inputs p xs) (chain_inputs q ys)
  unfolding chain_inputs last_hash hash_input
  same_inputs p q k [] [] cx cy len sep end = (ap when_present end, tt)
  same_inputs p q k [] (y ∷ ys) cx cy len sep end = absurd (omega (arith, len))
  same_inputs p q k (x ∷ xs) [] cx cy len sep end = absurd (omega (arith, len))
  same_inputs p q k (x ∷ xs) (y ∷ ys) cx cy len ((here, row), rest) end =
      let (_, named_x, hash_x, later_x) = cx in
      let (_, named_y, hash_y, later_y) = cy in
      let (linked, events) =
        same_inputs (some x.event_hash) (some y.event_hash) (k + 1) xs ys later_x later_y
          (omega (arith, len))
          (IsSeparated-tail (chain_inputs (some x.event_hash) xs) (hash_input q y)
            (chain_inputs (some y.event_hash) ys) rest)
          end in
      let hashes : x.event_hash ≡ y.event_hash =
        when_present-injective x.event_hash y.event_hash linked in
      let first : IsSameEvent not_after (hash_input p x) (hash_input q y) =
        hashed_object-IsSameEvent not_after (hash_input p x) (hash_input q y) (
          here (
            sym (hashed (hash_input p x))
            ∙ hash_x
            ∙ hashes
            ∙ sym hash_y
            ∙ hashed (hash_input q y))) in
      (first.previous_hash, (first, events))

  -- Two event logs of the same length whose chains both verify, and whose last hashes are the same,
  -- tell the same story: event by event the incident, the number, the type, the payload up to the
  -- order of keys, the time, the actor, the requests, the cause and the link agree, if SHA-256 of the
  -- JSON text gives no collision between the canonical objects that are hashed for the two.
  pub verify_incident_event_chain-tamper :
      (xs ys : List IncidentEvent)
      → (verify_incident_event_chain stringify sha256 not_after xs).valid ≡ true
      → (verify_incident_event_chain stringify sha256 not_after ys).valid ≡ true
      → length xs ≡ length ys
      → IsSeparated (chain_inputs none (sort_events xs)) (chain_inputs none (sort_events ys))
      → last_hash none (sort_events xs) ≡ last_hash none (sort_events ys)
      → AreSameEvents (chain_inputs none (sort_events xs)) (chain_inputs none (sort_events ys))
  unfolding verify_incident_event_chain
  verify_incident_event_chain-tamper xs ys vx vy len sep end =
      let (_, same) =
        same_inputs none none 1 (sort_events xs) (sort_events ys)
          (check_events-IsChain stringify sha256 not_after (length xs) none 1 (sort_events xs) vx)
          (check_events-IsChain stringify sha256 not_after (length ys) none 1 (sort_events ys) vy)
          (length-sort_events xs ∙ len ∙ sym (length-sort_events ys)) sep end in
      same
