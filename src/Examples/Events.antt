-- ===== src/Examples/Events.antt =====
-- A log of two events, with hashes of a small digest.
use coder_er.Base.{
  sym, ◌≡◌, refl, ◌↔◌, ℕ, leb, Bool, true, false, Text, codes, Option, none, some, List, [], ◌∷◌,
  ◌++◌, length, arith,
}
use coder_er.Incident.Json.{
  Json, null, bool, number, text, array, object, Jsons, Members, no_members, member, no_jsons,
  json_cons, digest_payload, canonical_json, canonicalize, insert_member,
}
use coder_er.Incident.Json.Order.{IsCollation}
use coder_er.Incident.Chain.{
  IncidentEventHashInput, hash_input, hashed_object, build_incident_event_hash, check_events,
  insert_event, IncidentEvent, sort_events, verify_incident_event_chain,
}
use coder_er.Incident.Chain.Links.{IsChain, verify_incident_event_chain_iff}
use coder_er.Incident.Chain.Tamper.{
  IsSeparated, AreSameEvents, chain_inputs, last_hash, verify_incident_event_chain-tamper,
}

-- The length of a text alone as collation, a printing of the numbers alone, and no hashing.
abbrev shorter : Text → Text → Bool
shorter a b = leb (length a) (length b)

shorter-IsCollation : IsCollation shorter
shorter-IsCollation = record {
  total = λ a b. ground arith;
  trans = λ a b c h k. ground (arith, h, k);
}

unfoldable mutual
  print : Json → Text
  print null = []
  print (bool b) = []
  print (number n) = n ∷ []
  print (text t) = []
  print (array items) = print_items items
  print (object entries) = print_members entries

  print_items : Jsons → Text
  print_items no_jsons = []
  print_items (json_cons value rest) = print value ++ print_items rest

  print_members : Members → Text
  print_members no_members = []
  print_members (member key value rest) = print value ++ print_members rest

abbrev plain : Text → Text
plain t = t

abbrev event : ℕ → Option Text → IncidentEvent
event n previous = record {
  incident_id = codes "i1";
  sequence = n;
  kind = codes "INCIDENT_CREATED";
  payload = object no_members;
  occurred_at = codes "2026";
  actor_type = codes "SERVICE";
  actor_id = none;
  request_id = none;
  correlation_id = none;
  causation_id = none;
  previous_hash = previous;
  event_hash = n ∷ [];
}

abbrev log : List IncidentEvent
log = event 1 none ∷ event 2 (some (1 ∷ [])) ∷ []

-- The same events in another order.
abbrev shuffled : List IncidentEvent
shuffled = event 2 (some (1 ∷ [])) ∷ event 1 none ∷ []

-- The second event names no hash.
abbrev tampered : List IncidentEvent
tampered = event 1 none ∷ event 2 none ∷ []

log_valid : (verify_incident_event_chain print plain shorter log).valid ≡ true
unfolding verify_incident_event_chain check_events sort_events insert_event
    build_incident_event_hash hashed_object digest_payload canonical_json print canonicalize
    insert_member hash_input
log_valid = refl

shuffled_valid : (verify_incident_event_chain print plain shorter shuffled).valid ≡ true
unfolding verify_incident_event_chain check_events sort_events insert_event
    build_incident_event_hash hashed_object digest_payload canonical_json print canonicalize
    insert_member hash_input
shuffled_valid = refl

tampered_invalid : (verify_incident_event_chain print plain shorter tampered).valid ≡ false
unfolding verify_incident_event_chain check_events sort_events insert_event
    build_incident_event_hash hashed_object digest_payload canonical_json print canonicalize
    insert_member hash_input
tampered_invalid = refl

first_input : IncidentEventHashInput
unfolding hash_input
first_input = hash_input none (event 1 none)

second_input : IncidentEventHashInput
unfolding hash_input
second_input = hash_input (some (1 ∷ [])) (event 2 (some (1 ∷ [])))

log_hashed : chain_inputs none (sort_events log) ≡ first_input ∷ second_input ∷ []
unfolding verify_incident_event_chain check_events sort_events insert_event
    build_incident_event_hash hashed_object digest_payload canonical_json print canonicalize
    insert_member hash_input chain_inputs first_input second_input
log_hashed = refl

-- What is hashed for the two events.
abbrev first_hashed : Text
first_hashed = print (canonicalize shorter (hashed_object first_input))

abbrev second_hashed : Text
second_hashed = print (canonicalize shorter (hashed_object second_input))

hashes_differ : ¬ (first_hashed ≡ second_hashed)
unfolding print canonicalize insert_member hash_input hashed_object first_input second_input
hashes_differ h = cc h

log-IsSeparated :
    IsSeparated print plain shorter
      (first_input ∷ second_input ∷ [])
      (first_input ∷ second_input ∷ [])
log-IsSeparated = (
  (λ h. refl, (λ h. absurd (hashes_differ h), tt)),
  ((λ h. absurd (hashes_differ (sym h)), (λ h. refl, tt)), tt),
)

logs-IsSeparated :
    IsSeparated print plain shorter
      (chain_inputs none (sort_events log))
      (chain_inputs none (sort_events shuffled))
unfolding sort_events insert_event hash_input chain_inputs first_input second_input
logs-IsSeparated = log-IsSeparated

verify_incident_event_chain_iff_example :
    ((verify_incident_event_chain print plain shorter log).valid ≡ true)
    ↔ IsChain print plain shorter none 1 (sort_events log)
verify_incident_event_chain_iff_example = verify_incident_event_chain_iff print plain shorter log

verify_incident_event_chain-tamper_example :
    AreSameEvents print plain shorter
      (chain_inputs none (sort_events log))
      (chain_inputs none (sort_events shuffled))
unfolding last_hash sort_events insert_event
verify_incident_event_chain-tamper_example =
    verify_incident_event_chain-tamper print plain shorter log shuffled log_valid shuffled_valid
      refl logs-IsSeparated refl
