-- ===== src/Incident/Chain.antt =====
-- The hash chain of an incident's events (packages/incidents/src/index.ts). The digest's parameters
-- are those of Incident/Json. Event types and actor types are their strings.
pub mod Links
pub mod Hashed
pub mod Tamper
use coder_er.Base.{
  ℕ, ◌+◌, ◌-◌, Bool, true, false, not, Option, none, some, Text, codes, List, [], ◌∷◌, length, leb,
  if◌then◌else◌, ◌==◌, nat_equality, list_equality,
}
use coder_er.Incident.Json.{Json, null, number, text, object, Members, members, digest_payload}

pub record IncidentEvent : Type 0 where
  pub incident_id : Text
  pub sequence : ℕ
  pub kind : Text
  pub payload : Json
  pub occurred_at : Text
  pub actor_type : Text
  pub actor_id : Option Text
  pub request_id : Option Text
  pub correlation_id : Option Text
  pub causation_id : Option Text
  pub previous_hash : Option Text
  pub event_hash : Text

pub record IncidentEventHashInput : Type 0 where
  pub incident_id : Text
  pub sequence : ℕ
  pub kind : Text
  pub payload : Json
  pub occurred_at : Text
  pub actor_type : Text
  pub actor_id : Option Text
  pub request_id : Option Text
  pub correlation_id : Option Text
  pub causation_id : Option Text
  pub previous_hash : Option Text

pub data BreakReason : Type 0 where
  unexpected_sequence : ℕ → ℕ → BreakReason
  previous_hash_differs event_hash_differs : BreakReason

pub record IncidentEventIntegrity : Type 0 where
  pub valid : Bool
  pub checked_events : ℕ
  pub broken_sequence : Option ℕ
  pub reason : Option BreakReason

-- `?? null`.
abbrev pub or_null : Option Text → Json
or_null none = null
or_null (some t) = text t

-- `...(value ? { value } : {})`: an empty string counts as absent.
abbrev pub when_present : Option Text → Option Text
when_present none = none
when_present (some t) = if t == [] then none else some t

abbrev pub option_text_beq : Option Text → Option Text → Bool
option_text_beq none none = true
option_text_beq (some a) (some b) = a == b
option_text_beq _ _ = false

-- `[...events].sort((left, right) => left.sequence - right.sequence)`, a stable insertion sort.
unfoldable pub insert_event : IncidentEvent → List IncidentEvent → List IncidentEvent
insert_event event [] = event ∷ []
insert_event event (next ∷ rest) =
    let later = insert_event event rest in
    if leb event.sequence next.sequence then event ∷ next ∷ rest else next ∷ later

unfoldable pub sort_events : List IncidentEvent → List IncidentEvent
sort_events [] = []
sort_events (event ∷ rest) = insert_event event (sort_events rest)

-- What is hashed for an event, behind the hash of the event before.
unfoldable pub hash_input : Option Text → IncidentEvent → IncidentEventHashInput
hash_input previous event = record {
  incident_id = event.incident_id;
  sequence = event.sequence;
  kind = event.kind;
  payload = event.payload;
  occurred_at = event.occurred_at;
  actor_type = event.actor_type;
  actor_id = when_present event.actor_id;
  request_id = when_present event.request_id;
  correlation_id = when_present event.correlation_id;
  causation_id = when_present event.causation_id;
  previous_hash = when_present previous;
}

abbrev broken : ℕ → IncidentEvent → BreakReason → IncidentEventIntegrity
broken expected event reason = record {
  valid = false;
  checked_events = expected - 1;
  broken_sequence = some event.sequence;
  reason = some reason;
}

abbrev pub hashed_members : IncidentEventHashInput → Members
hashed_members input = members (
    (codes "actorId", or_null input.actor_id)
    ∷ (codes "actorType", text input.actor_type)
    ∷ (codes "causationId", or_null input.causation_id)
    ∷ (codes "correlationId", or_null input.correlation_id)
    ∷ (codes "incidentId", text input.incident_id)
    ∷ (codes "occurredAt", text input.occurred_at)
    ∷ (codes "payload", input.payload)
    ∷ (codes "previousHash", or_null input.previous_hash)
    ∷ (codes "requestId", or_null input.request_id)
    ∷ (codes "sequence", number input.sequence)
    ∷ (codes "type", text input.kind)
    ∷ [])

-- The object whose canonical text is hashed.
unfoldable pub hashed_object : IncidentEventHashInput → Json
hashed_object input = object (hashed_members input)

module _ (stringify : Json → Text) (sha256 : Text → Text) (not_after : Text → Text → Bool) where
  unfoldable pub build_incident_event_hash : IncidentEventHashInput → Text
  build_incident_event_hash input = digest_payload stringify sha256 not_after (hashed_object input)

  -- The loop: `previous` and `expected` are its variables, `total` the number of events.
  unfoldable pub check_events : ℕ → Option Text → ℕ → List IncidentEvent → IncidentEventIntegrity
  check_events total previous expected [] = record {
    valid = true;
    checked_events = total;
    broken_sequence = none;
    reason = none;
  }
  check_events total previous expected (event ∷ rest) =
      let next = check_events total (some event.event_hash) (expected + 1) rest in
      if not (event.sequence == expected)
      then broken expected event (unexpected_sequence expected event.sequence)
      else if not (option_text_beq event.previous_hash previous)
      then broken expected event previous_hash_differs
      else if not (build_incident_event_hash (hash_input previous event) == event.event_hash)
      then broken expected event event_hash_differs
      else next

  unfoldable pub verify_incident_event_chain : List IncidentEvent → IncidentEventIntegrity
  verify_incident_event_chain events = check_events (length events) none 1 (sort_events events)
