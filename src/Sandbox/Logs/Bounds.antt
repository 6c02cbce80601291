-- ===== src/Sandbox/Logs/Bounds.antt =====
-- The loop of an append ends, and its chunks are in bounds, numbered and linked.
use coder_er.Base.{
  ℕ, zero, suc, ◌+◌, ◌-◌, ◌≤◌, ◌<◌, ◌≡◌, refl, true, false, not, ◌||◌, Option, some, List, [], ◌∷◌,
  ◌++◌, Text, ltb, min, length, arith, ap, ◌∙◌, All, append_assoc, append-nil, sym, Bool-cases, inl,
  inr, length-append,
}
use coder_er.Sandbox.Logs.{
  char_bytes, byte_length, take_utf8_prefix, Source, Chunk, LogAccumulator, is_empty, Appended,
  chunk_of, after_chunk, append_chunks, append, close,
}

char_bytes-positive : (c : ℕ) → 1 ≤ char_bytes c
unfolding char_bytes
char_bytes-positive c = ground arith

-- A prefix fits its budget, and nothing is lost.
record IsPrefix (s : Text) (budget : ℕ) (taken : Text × Text) : Type 0 where
  whole : taken.0 ++ taken.1 ≡ s
  fits : byte_length taken.0 ≤ budget

take_utf8_prefix-IsPrefix : (s : Text) (budget : ℕ) → IsPrefix s budget (take_utf8_prefix s budget)
unfolding take_utf8_prefix byte_length
take_utf8_prefix-IsPrefix [] budget = record { whole = refl; fits = omega arith }
take_utf8_prefix-IsPrefix (c ∷ s) budget =
    let later = take_utf8_prefix-IsPrefix s (budget - char_bytes c) in
    elim (Bool-cases (ltb budget (char_bytes c))) [
      | inl over ↦ rw over (record { whole = refl; fits = omega arith })
      | inr under ↦
          rw under (record {
            whole = ap (λ t. c ∷ t) later.whole;
            fits = ground (arith, under, later.fits);
          })
    ]

-- The bytes of chunks, their contents one after another, and the chunks as a numbered chain.
abbrev pub sum_bytes : {Hash : Type 0} → List (Chunk Hash) → ℕ
sum_bytes [] = 0
sum_bytes (c ∷ cs) = c.byte_size + sum_bytes cs

abbrev pub contents : {Hash : Type 0} → List (Chunk Hash) → Text
contents [] = []
contents (c ∷ cs) = c.content ++ contents cs

nonempty : (t : Text) → is_empty t ≡ false → 1 ≤ length t
nonempty [] h = cc
nonempty (c ∷ t) h = omega arith

shorter :
    (s : Text) (budget : ℕ)
    → is_empty (take_utf8_prefix s budget).0 ≡ false
    → length (take_utf8_prefix s budget).1 < length s
shorter s budget h =
    let taken = take_utf8_prefix s budget in
    let whole = (take_utf8_prefix-IsPrefix s budget).whole in
    omega (arith, length-append taken.0 taken.1, ap length whole, nonempty taken.0 h)

all_kept : (rest kept s : Text) → is_empty rest ≡ true → kept ++ rest ≡ s → kept ≡ s
all_kept [] kept s h e = sym (append-nil kept) ∙ e
all_kept (c ∷ rest) kept s h e = cc

module _ {Hash : Type 0} (hash : Source → ℕ → Text → Option Hash → Hash)
    (maximum_bytes chunk_bytes : ℕ) where
  -- A chunk has the hash of its own fields, and names the hash and follows the number before it.
  abbrev pub IsChain : ℕ → Option Hash → List (Chunk Hash) → ℕ → Option Hash → Type 0
  IsChain n previous [] m last = (m ≡ n) × (last ≡ previous)
  IsChain n previous (c ∷ cs) m last =
      (c.sequence ≡ n + 1)
      × ((c.previous_hash ≡ previous)
          × ((c.chunk_hash ≡ hash c.source c.sequence c.content c.previous_hash)
              × IsChain c.sequence (some c.chunk_hash) cs m last))

  abbrev pub IsMeasured : Chunk Hash → Type 0
  IsMeasured c = (c.byte_size ≡ byte_length c.content) × (c.byte_size ≤ chunk_bytes)

  -- What an append of `s` does to an accumulator.
  pub record IsAppended (s : Text) (a : LogAccumulator Hash) (result : Appended Hash) : Type 0 where
    pub kept : contents result.0 ++ result.1.1 ≡ s
    pub counted : result.1.0.total_bytes ≡ a.total_bytes + sum_bytes result.0
    pub within : a.total_bytes ≤ maximum_bytes → result.1.0.total_bytes ≤ maximum_bytes
    pub chain :
        IsChain a.sequence a.previous_hash result.0 result.1.0.sequence result.1.0.previous_hash
    pub measured : All IsMeasured result.0
    pub flagged : result.1.0.truncated ≡ false → a.truncated ≡ false

  append_chunks-IsAppended :
      (fuel : ℕ) (source : Source) (s : Text) (a : LogAccumulator Hash)
      → length s < fuel
      → (result : Appended Hash) × ((append_chunks hash maximum_bytes chunk_bytes fuel source s a
            ≡ some result)
          × IsAppended s a result)
  unfolding append_chunks
  append_chunks-IsAppended zero source s a enough = absurd (omega (arith, enough))
  append_chunks-IsAppended (suc fuel) source s a enough =
      let budget = min chunk_bytes (maximum_bytes - a.total_bytes) in
      let taken = take_utf8_prefix s budget in
      let prefix = take_utf8_prefix-IsPrefix s budget in
      let chunk = chunk_of hash maximum_bytes chunk_bytes source a taken.0 taken.1 in
      elim (Bool-cases (is_empty s || not (ltb a.total_bytes maximum_bytes))) [
        | inl stop ↦ (
          ([], (a, s)),
          (
            rw stop refl,
            record {
              kept = refl;
              counted = omega arith;
              within = λ h. h;
              chain = (refl, refl);
              measured = tt;
              flagged = λ h. h;
            },
          ),
        )
        | inr go ↦ elim (Bool-cases (is_empty taken.0)) [
          | inl too_big ↦ (
            ([], (record a { truncated = true }, s)),
            (
              rw (go, too_big) refl,
              record {
                kept = refl;
                counted = omega arith;
                within = λ h. h;
                chain = (refl, refl);
                measured = tt;
                flagged = λ h. cc;
              },
            ),
          )
          | inr some_fit ↦
              let next = after_chunk hash maximum_bytes chunk_bytes a chunk in
              let (later, (found, i)) =
                append_chunks-IsAppended fuel source taken.1 next
                  (omega (arith, enough, shorter s budget some_fit)) in
              (
                (chunk ∷ later.0, later.1),
                (
                  rw (go, some_fit, found) refl,
                  record {
                    kept =
                        append_assoc taken.0 (contents later.0) later.1.1
                        ∙ ap (λ t. taken.0 ++ t) i.kept
                        ∙ prefix.whole;
                    counted = omega (arith, i.counted);
                    within = λ h. i.within (omega (arith, prefix.fits, h));
                    chain = (refl, (refl, (refl, i.chain)));
                    measured = ((refl, omega (arith, prefix.fits)), i.measured);
                    flagged = λ h. ground (arith, i.flagged h);
                  },
                ),
              )
        ]
      ]

  -- An append of a log whose bytes are within the maximum ends. The contents of its chunks, and the
  -- text that it leaves out, are the redacted text; the bytes are counted and still within the
  -- maximum, no chunk is larger than a chunk may be, and the chunks are numbered and linked by hash
  -- from the ones before. Unless the log is then marked as truncated, nothing was left out.
  pub append-IsAppended :
      (source : Source) (s : Text) (a : LogAccumulator Hash)
      → (result : Appended Hash) × ((append hash maximum_bytes chunk_bytes source s a ≡ some result)
          × (IsAppended s a result × (result.1.0.truncated ≡ false → contents result.0 ≡ s)))
  unfolding append
  append-IsAppended source s a = elim (Bool-cases (ltb a.total_bytes maximum_bytes)) [
    | inl room ↦
        let (inner, (found, i)) =
          append_chunks-IsAppended (length s + 1) source s a (omega arith) in
        (
          close inner,
          (
            rw (room, found) refl,
            (
              record {
                kept = i.kept;
                counted = i.counted;
                within = i.within;
                chain = i.chain;
                measured = i.measured;
                flagged = λ h. i.flagged (ground (arith, h));
              },
              λ h. all_kept inner.1.1 (contents inner.0) s (ground (arith, h)) i.kept,
            ),
          ),
        )
    | inr full ↦ (
      ([], (record a { truncated = true }, s)),
      (
        rw full refl,
        (
          record {
            kept = refl;
            counted = omega arith;
            within = λ h. h;
            chain = (refl, refl);
            measured = tt;
            flagged = λ h. cc;
          },
          λ h. cc,
        ),
      ),
    )
  ]
