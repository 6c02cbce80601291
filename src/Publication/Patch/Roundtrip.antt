-- ===== src/Publication/Patch/Roundtrip.antt =====
-- Writing a patch from an edit script and applying it gives the edited file.
use coder_er.Base.{
  ℕ, suc, ◌+◌, ◌-◌, ◌≡◌, refl, ap, subst, ◌∙◌, false, List, [], ◌∷◌, ◌++◌, append_assoc, map, Text,
  length, drop, nat_equality, list_equality, ok, arith, take-length-append, drop-length-append, ltb,
}
use coder_er.Publication.Patch.{Hunk, Progress, unset, apply_hunk, apply_hunks, slice, start_index}
use coder_er.Publication.Patch.Script.{
  Segment, old_of, new_of, source, target, render, hunks_of, drop-drop, Advances,
  apply_lines-render,
}

-- The hunk that `hunks_of` writes for a segment.
abbrev hunk_of : ℕ → ℕ → Segment → Hunk
hunk_of old new s = record {
  old_start = suc (old + length s.gap);
  old_lines = length (old_of s.edits);
  new_start = suc (new + length s.gap);
  new_lines = length (new_of s.edits);
  lines = map render s.edits;
}

start_index-hunk_of :
    (old new : ℕ) (s : Segment) → start_index (hunk_of old new s) ≡ old + length s.gap
start_index-hunk_of old new s = ground arith

add_sub_self : (a b : ℕ) → a + b - a ≡ b
add_sub_self a b = omega arith

slice-gap :
    (base gap rest : List Text) (old : ℕ)
    → drop old base ≡ gap ++ rest
    → slice base old (old + length gap) ≡ gap
slice-gap base gap rest old h = rw (add_sub_self old (length gap), h) (take-length-append gap rest)

drop-gap :
    (base gap rest : List Text) (old : ℕ)
    → drop old base ≡ gap ++ rest
    → drop (old + length gap) base ≡ rest
drop-gap base gap rest old h = drop-drop base old (length gap) ∙ rw h (drop-length-append gap rest)

apply_hunk-hunk_of :
    (base : List Text) (s : Segment) (rest : List Text) (new : ℕ) (p : Progress)
    → drop p.old_index base ≡ s.gap ++ (old_of s.edits ++ rest)
    → (q : Progress) × (apply_hunk base (hunk_of p.old_index new s) p ≡ ok q)
      × Advances base (length s.gap + length (old_of s.edits)) (s.gap ++ new_of s.edits) rest p q
unfolding apply_hunk
apply_hunk-hunk_of base s rest new p h =
    let start = p.old_index + length s.gap in
    let behind = old_of s.edits ++ rest in
    let p' : Progress = record p {
      old_index = start;
      output = p.output ++ slice base p.old_index start;
      previous_kind = unset;
    } in
    let (q, run, a) =
      apply_lines-render base s.edits rest p' (drop-gap base s.gap behind p.old_index h) in
    let in_order : ltb start p.old_index ≡ false = ground arith in
    (
      q,
      rw (start_index-hunk_of p.old_index new s, in_order) run,
      record {
        index = omega (arith, a.index);
        output =
            a.output
            ∙ (ap (λ xs. (p.output ++ xs) ++ new_of s.edits)
                  (slice-gap base s.gap behind p.old_index h)
                ∙ append_assoc p.output s.gap (new_of s.edits));
        newline = a.newline;
        left = a.left;
      },
    )

pub apply_hunks-hunks_of :
    (base : List Text) (ss : List Segment) (tail : List Text) (new : ℕ) (p : Progress)
    → drop p.old_index base ≡ source ss tail
    → (q : Progress) × (apply_hunks base (hunks_of p.old_index new ss) p ≡ ok q)
      × (q.output ++ drop q.old_index base ≡ p.output ++ target ss tail)
      × (q.ends_with_newline ≡ p.ends_with_newline)
unfolding apply_hunks
apply_hunks-hunks_of base [] tail new p h = (p, refl, ap (λ xs. p.output ++ xs) h, refl)
apply_hunks-hunks_of base (s ∷ ss) tail new p h =
    let (q, run, a) = apply_hunk-hunk_of base s (source ss tail) new p h in
    let new' = new + length s.gap + length (new_of s.edits) in
    let here : q.old_index ≡ p.old_index + length s.gap + length (old_of s.edits) =
      omega (arith, a.index) in
    let (r, runs, output, newline) = apply_hunks-hunks_of base ss tail new' q a.left in
    (
      r,
      rw run (subst (λ n. apply_hunks base (hunks_of n new' ss) q ≡ ok r) here runs),
      output
          ∙ (ap (λ xs. xs ++ target ss tail) a.output
              ∙ (append_assoc p.output (s.gap ++ new_of s.edits) (target ss tail)
                  ∙ ap (λ xs. p.output ++ xs)
                      (append_assoc s.gap (new_of s.edits) (target ss tail)))),
      newline ∙ a.newline,
    )
