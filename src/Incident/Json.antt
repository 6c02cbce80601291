-- ===== src/Incident/Json.antt =====
-- Canonical JSON and its digest (packages/incidents/src/index.ts). `JSON.stringify`, the hash and the
-- collation of `localeCompare` are parameters. A number is a natural number.
pub mod Order
use coder_er.Base.{ℕ, Bool, Text, List, [], ◌∷◌, if◌then◌else◌}

mutual
  pub data Json : Type 0 where
    null : Json
    bool : Bool → Json
    number : ℕ → Json
    text : Text → Json
    array : Jsons → Json
    object : Members → Json

  pub data Jsons : Type 0 where
    no_jsons : Jsons
    json_cons : Json → Jsons → Jsons

  pub data Members : Type 0 where
    no_members : Members
    member : Text → Json → Members → Members

abbrev pub members : List (Text × Json) → Members
members [] = no_members
members ((key, value) ∷ rest) = member key value (members rest)

module _ (not_after : Text → Text → Bool) where
  -- `.sort(([left], [right]) => left.localeCompare(right))`, a stable insertion sort.
  unfoldable pub insert_member : Text → Json → Members → Members
  insert_member key value no_members = member key value no_members
  insert_member key value (member k v rest) =
      let later = insert_member key value rest in
      if not_after key k then member key value (member k v rest) else member k v later

  unfoldable mutual
    pub canonicalize : Json → Json
    canonicalize null = null
    canonicalize (bool b) = bool b
    canonicalize (number n) = number n
    canonicalize (text t) = text t
    canonicalize (array items) = array (canonicalize_items items)
    canonicalize (object entries) = object (canonicalize_members entries)

    pub canonicalize_items : Jsons → Jsons
    canonicalize_items no_jsons = no_jsons
    canonicalize_items (json_cons value rest) =
        json_cons (canonicalize value) (canonicalize_items rest)

    pub canonicalize_members : Members → Members
    canonicalize_members no_members = no_members
    canonicalize_members (member key value rest) =
        insert_member key (canonicalize value) (canonicalize_members rest)

module _ (stringify : Json → Text) (sha256 : Text → Text) (not_after : Text → Text → Bool) where
  unfoldable pub canonical_json : Json → Text
  canonical_json value = stringify (canonicalize not_after value)

  unfoldable pub digest_payload : Json → Text
  digest_payload value = sha256 (canonical_json value)
