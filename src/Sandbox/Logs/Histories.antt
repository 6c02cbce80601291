-- ===== src/Sandbox/Logs/Histories.antt =====
-- The log of a whole execution: appends one after another.
use coder_er.Base.{
  subst, ℕ, ◌+◌, ◌≤◌, ◌≡◌, refl, false, Option, none, some, List, [], ◌∷◌, ◌++◌, Text, arith, ap,
  ◌∙◌, sym, All, append_assoc,
}
use coder_er.Sandbox.Logs.{Source, Chunk, LogAccumulator, Appended, append, new_accumulator}
use coder_er.Sandbox.Logs.Bounds.{sum_bytes, contents, IsChain, IsMeasured, append-IsAppended}

-- What is appended: its source and its redacted text.
abbrev pub Entry : Type 0
Entry = Source × Text

abbrev pub texts : List Entry → Text
texts [] = []
texts ((source, s) ∷ entries) = s ++ texts entries

-- The chunks of all appends, and the accumulator at the end.
abbrev pub Logged : Type 0 → Type 0
Logged Hash = List (Chunk Hash) × LogAccumulator Hash

abbrev pub with_chunks :
    {Hash : Type 0} → List (Chunk Hash) → Option (Logged Hash) → Option (Logged Hash)
with_chunks chunks none = none
with_chunks chunks (some (later, a)) = some (chunks ++ later, a)

abbrev pub and_log :
    {Hash : Type 0}
    → Option (Appended Hash)
    → (LogAccumulator Hash → Option (Logged Hash))
    → Option (Logged Hash)
and_log none next = none
and_log (some (chunks, (a, left_out))) next = with_chunks chunks (next a)

sum_bytes-append :
    {Hash : Type 0} (cs ds : List (Chunk Hash)) → sum_bytes (cs ++ ds) ≡ sum_bytes cs + sum_bytes ds
sum_bytes-append [] ds = omega arith
sum_bytes-append (c ∷ cs) ds = omega (arith, sum_bytes-append cs ds)

contents-append :
    {Hash : Type 0} (cs ds : List (Chunk Hash)) → contents (cs ++ ds) ≡ contents cs ++ contents ds
contents-append [] ds = refl
contents-append (c ∷ cs) ds =
    ap (λ t. c.content ++ t) (contents-append cs ds)
    ∙ sym (append_assoc c.content (contents cs) (contents ds))

All-append : {A : Type 0} (P : A → Type 0) (xs ys : List A) → All P xs → All P ys → All P (xs ++ ys)
All-append P [] ys p q = q
All-append P (x ∷ xs) ys p q = (p.0, All-append P xs ys p.1 q)

module _ {Hash : Type 0} (hash : Source → ℕ → Text → Option Hash → Hash)
    (maximum_bytes chunk_bytes : ℕ) where
  unfoldable pub append_all : List Entry → LogAccumulator Hash → Option (Logged Hash)
  append_all [] a = some ([], a)
  append_all ((source, s) ∷ entries) a =
      and_log (append hash maximum_bytes chunk_bytes source s a) (λ b. append_all entries b)

  IsChain-append :
      (n m k : ℕ) (first middle last : Option Hash) (cs ds : List (Chunk Hash))
      → IsChain hash maximum_bytes chunk_bytes n first cs m middle
      → IsChain hash maximum_bytes chunk_bytes m middle ds k last
      → IsChain hash maximum_bytes chunk_bytes n first (cs ++ ds) k last
  IsChain-append n m k first middle last [] ds p q =
      subst (λ i. IsChain hash maximum_bytes chunk_bytes i first ds k last) p.0
        (subst (λ h. IsChain hash maximum_bytes chunk_bytes m h ds k last) p.1 q)
  IsChain-append n m k first middle last (c ∷ cs) ds (p, (h, (e, rest))) q =
      (p, (h, (e, IsChain-append c.sequence m k (some c.chunk_hash) middle last cs ds rest q)))

  -- A log of these entries.
  pub record IsLogOf (entries : List Entry) (a : LogAccumulator Hash) (log : Logged Hash)
      : Type 0 where
    pub counted : log.1.total_bytes ≡ a.total_bytes + sum_bytes log.0
    pub within : a.total_bytes ≤ maximum_bytes → log.1.total_bytes ≤ maximum_bytes
    pub chain :
        IsChain hash maximum_bytes chunk_bytes a.sequence a.previous_hash log.0 log.1.sequence
          log.1.previous_hash
    pub measured : All (IsMeasured hash maximum_bytes chunk_bytes) log.0
    pub whole : log.1.truncated ≡ false → (a.truncated ≡ false) × (contents log.0 ≡ texts entries)

  append_all-IsLogOf :
      (entries : List Entry) (a : LogAccumulator Hash)
      → (log : Logged Hash) × ((append_all entries a ≡ some log) × IsLogOf entries a log)
  unfolding append_all
  append_all-IsLogOf [] a = (
    ([], a),
    (
      refl,
      record {
        counted = omega arith;
        within = λ h. h;
        chain = (refl, refl);
        measured = tt;
        whole = λ h. (h, refl);
      },
    ),
  )
  append_all-IsLogOf ((source, s) ∷ entries) a =
      let (result, (done, (i, all_in))) =
        append-IsAppended hash maximum_bytes chunk_bytes source s a in
      let (later, (rest_done, j)) = append_all-IsLogOf entries result.1.0 in
      (
        (result.0 ++ later.0, later.1),
        (
          rw (done, rest_done) refl,
          record {
            counted = omega (arith, i.counted, j.counted, sum_bytes-append result.0 later.0);
            within = λ h. j.within (i.within h);
            chain = IsChain-append _ _ _ _ _ _ result.0 later.0 i.chain j.chain;
            measured = All-append _ result.0 later.0 i.measured j.measured;
            whole = λ h.
                let (unmarked, same) = j.whole h in
                (i.flagged unmarked, contents-append result.0 later.0 ∙ cc (all_in unmarked, same));
          },
        ),
      )

  -- The log of an execution ends, whatever is appended to it and in whatever order. Its bytes are the
  -- sum of the bytes of its chunks and never more than the maximum; no chunk is larger than a chunk
  -- may be; the chunks are numbered from 1 on and each has the hash of its own fields and of the chunk
  -- before it. A log that is not marked as truncated holds all that was appended, in its order.
  pub append_all-bounded :
      (entries : List Entry)
      → (log : Logged Hash) × ((append_all entries new_accumulator ≡ some log)
          × ((log.1.total_bytes ≡ sum_bytes log.0)
              × ((log.1.total_bytes ≤ maximum_bytes)
                  × (All (IsMeasured hash maximum_bytes chunk_bytes) log.0
                      × (IsChain hash maximum_bytes chunk_bytes 0 none log.0 log.1.sequence
                            log.1.previous_hash
                          × (log.1.truncated ≡ false → contents log.0 ≡ texts entries))))))
  append_all-bounded entries =
      let (log, (done, i)) = append_all-IsLogOf entries new_accumulator in
      (
        log,
        (
          done,
          (
            omega (arith, i.counted),
            (i.within (omega arith), (i.measured, (i.chain, λ h. (i.whole h).1))),
          ),
        ),
      )
