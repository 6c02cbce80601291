-- ===== src/Sandbox/Logs.antt =====
-- The bounded log of a sandbox execution (packages/sandbox/src/logs.ts). A text is the list of its
-- code points, as the code iterates over it, so that an offset into it is the text that is left. The
-- hash of a chunk's JSON text is a parameter, and an append is given the redacted text.
pub mod Bounds
pub mod Histories
use coder_er.Base.{
  ℕ, zero, suc, ◌+◌, ◌-◌, Bool, true, false, not, ◌&&◌, ◌||◌, String, Option, none, some, List, [],
  ◌∷◌, Text, ltb, min, max, length, if◌then◌else◌,
}

-- `Buffer.byteLength(character, 'utf8')`.
unfoldable pub char_bytes : ℕ → ℕ
char_bytes c = if ltb c 128 then 1 else if ltb c 2048 then 2 else if ltb c 65536 then 3 else 4

unfoldable pub byte_length : Text → ℕ
byte_length [] = 0
byte_length (c ∷ s) = char_bytes c + byte_length s

-- The longest prefix of whole characters in the budget, and the text that is left.
unfoldable pub take_utf8_prefix : Text → ℕ → Text × Text
take_utf8_prefix [] maximum_bytes = ([], [])
take_utf8_prefix (c ∷ s) maximum_bytes =
    let later = take_utf8_prefix s (maximum_bytes - char_bytes c) in
    if ltb maximum_bytes (char_bytes c) then ([], c ∷ s) else (c ∷ later.0, later.1)

pub data Stream : Type 0 where
  stdout stderr system : Stream

-- What is the same for all chunks of one append.
pub record Source : Type 0 where
  pub stream : Stream
  pub command_id : Option String
  pub occurred_at : ℕ

pub record Chunk (Hash : Type 0) : Type 0 where
  pub source : Source
  pub sequence : ℕ
  pub content : Text
  pub byte_size : ℕ
  pub truncated : Bool
  pub previous_hash : Option Hash
  pub chunk_hash : Hash

pub record LogAccumulator (Hash : Type 0) : Type 0 where
  pub sequence : ℕ
  pub total_bytes : ℕ
  pub previous_hash : Option Hash
  pub truncated : Bool

abbrev pub new_accumulator : {Hash : Type 0} → LogAccumulator Hash
new_accumulator = record { sequence = 0; total_bytes = 0; previous_hash = none; truncated = false }

abbrev pub maximum_chunk_bytes : Option ℕ → ℕ
maximum_chunk_bytes none = 32768
maximum_chunk_bytes (some bytes) = min (max bytes 1024) 131072

abbrev pub is_empty : Text → Bool
is_empty [] = true
is_empty (c ∷ s) = false

-- The chunks of an append, the accumulator after it, and the text that was left out.
abbrev pub Appended : Type 0 → Type 0
Appended Hash = List (Chunk Hash) × (LogAccumulator Hash × Text)

abbrev pub with_chunk :
    {Hash : Type 0} → Chunk Hash → Option (Appended Hash) → Option (Appended Hash)
with_chunk chunk none = none
with_chunk chunk (some (chunks, last)) = some (chunk ∷ chunks, last)

-- What follows the loop: text that is left out is noted.
abbrev pub close : {Hash : Type 0} → Appended Hash → Appended Hash
close (chunks, (a, rest)) =
    (chunks, (record a { truncated = not (is_empty rest) || a.truncated }, rest))

abbrev pub close_all : {Hash : Type 0} → Option (Appended Hash) → Option (Appended Hash)
close_all none = none
close_all (some appended) = some (close appended)

module _ {Hash : Type 0} (hash : Source → ℕ → Text → Option Hash → Hash)
    (maximum_bytes chunk_bytes : ℕ) where
  abbrev pub chunk_of : Source → LogAccumulator Hash → Text → Text → Chunk Hash
  chunk_of source a content rest = record {
    source = source;
    sequence = a.sequence + 1;
    content = content;
    byte_size = byte_length content;
    truncated =
        not (is_empty rest) || not (ltb (a.total_bytes + byte_length content) maximum_bytes);
    previous_hash = a.previous_hash;
    chunk_hash = hash source (a.sequence + 1) content a.previous_hash;
  }

  abbrev pub after_chunk : LogAccumulator Hash → Chunk Hash → LogAccumulator Hash
  after_chunk a chunk = record {
    sequence = chunk.sequence;
    total_bytes = a.total_bytes + chunk.byte_size;
    previous_hash = some chunk.chunk_hash;
    truncated =
        a.truncated || chunk.truncated && not (ltb (a.total_bytes + chunk.byte_size) maximum_bytes);
  }

  -- The loop, on fuel: `none` where the fuel runs out.
  unfoldable pub append_chunks : ℕ → Source → Text → LogAccumulator Hash → Option (Appended Hash)
  append_chunks zero source s a = none
  append_chunks (suc fuel) source s a =
      let taken = take_utf8_prefix s (min chunk_bytes (maximum_bytes - a.total_bytes)) in
      let chunk = chunk_of source a taken.0 taken.1 in
      let later = append_chunks fuel source taken.1 (after_chunk a chunk) in
      if is_empty s || not (ltb a.total_bytes maximum_bytes)
      then some ([], (a, s))
      else if is_empty taken.0
      then some ([], (record a { truncated = true }, s))
      else with_chunk chunk later

  -- An append of a redacted text. Every turn of the loop takes a character at least.
  unfoldable pub append : Source → Text → LogAccumulator Hash → Option (Appended Hash)
  unfolding append_chunks
  append source s a =
      if not (ltb a.total_bytes maximum_bytes)
      then some ([], (record a { truncated = true }, s))
      else close_all (append_chunks (length s + 1) source s a)
