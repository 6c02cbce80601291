-- ===== src/Publication/Patch/Script.antt =====
-- Hunks that are written from an edit script are applied as the script says.
use native.Mathlib.Nat.{suc-add, zero-add}
use coder_er.Base.{
  ℕ, zero, suc, ◌+◌, ◌≡◌, refl, sym, ap, ◌∙◌, true, some, List, [], ◌∷◌, ◌++◌, append_assoc,
  append-nil, map, Text, length, length-append, drop, get_elem?, nat_equality, list_equality, ok,
  arith, ==_refl,
}
use coder_er.Publication.Patch.{
  Hunk, Progress, context, removal, addition, apply_line, apply_lines, line_matches,
}

pub data Edit : Type 0 where
  keep_line : Text → Edit
  delete_line : Text → Edit
  insert_line : Text → Edit

-- The lines before and after the edits.
abbrev pub old_of : List Edit → List Text
old_of [] = []
old_of (keep_line t ∷ es) = t ∷ old_of es
old_of (delete_line t ∷ es) = t ∷ old_of es
old_of (insert_line t ∷ es) = old_of es

abbrev pub new_of : List Edit → List Text
new_of [] = []
new_of (keep_line t ∷ es) = t ∷ new_of es
new_of (delete_line t ∷ es) = new_of es
new_of (insert_line t ∷ es) = t ∷ new_of es

-- Lines that are left alone, and the edits behind them.
pub record Segment : Type 0 where
  pub gap : List Text
  pub edits : List Edit

abbrev pub source : List Segment → List Text → List Text
source [] tail = tail
source (s ∷ ss) tail = s.gap ++ (old_of s.edits ++ source ss tail)

abbrev pub target : List Segment → List Text → List Text
target [] tail = tail
target (s ∷ ss) tail = s.gap ++ (new_of s.edits ++ target ss tail)

abbrev pub render : Edit → Text
render (keep_line t) = 32 ∷ t
render (delete_line t) = 45 ∷ t
render (insert_line t) = 43 ∷ t

-- The hunks of a script, from the numbers of lines that stand before it.
abbrev pub hunks_of : ℕ → ℕ → List Segment → List Hunk
hunks_of old new [] = []
hunks_of old new (s ∷ ss) =
    record {
      old_start = suc (old + length s.gap);
      old_lines = length (old_of s.edits);
      new_start = suc (new + length s.gap);
      new_lines = length (new_of s.edits);
      lines = map render s.edits;
    }
    ∷ hunks_of (old + length s.gap + length (old_of s.edits))
        (new + length s.gap + length (new_of s.edits)) ss

module _ {ℓ} {A : Type ℓ} where
  get_elem?-drop :
      (xs : List A) (i : ℕ) (x : A) (rest : List A) → drop i xs ≡ x ∷ rest → get_elem? xs i ≡ some x
  get_elem?-drop [] zero x rest h = cc
  get_elem?-drop [] (suc i) x rest h = cc
  get_elem?-drop (y ∷ xs) zero x rest h = cc
  get_elem?-drop (y ∷ xs) (suc i) x rest h = get_elem?-drop xs i x rest h

  drop-suc :
      (xs : List A) (i : ℕ) (x : A) (rest : List A) → drop i xs ≡ x ∷ rest → drop (i + 1) xs ≡ rest
  drop-suc [] zero x rest h = cc
  drop-suc [] (suc i) x rest h = cc
  drop-suc (y ∷ xs) zero x rest h = cc
  drop-suc (y ∷ xs) (suc i) x rest h = rw (suc-add i 1) (drop-suc xs i x rest h)

  pub drop-drop : (xs : List A) (i j : ℕ) → drop (i + j) xs ≡ drop j (drop i xs)
  drop-drop xs zero j = rw zero-add
  drop-drop [] (suc i) zero = rw (suc-add i zero) refl
  drop-drop [] (suc i) (suc j) = rw (suc-add i (suc j)) refl
  drop-drop (x ∷ xs) (suc i) j = rw (suc-add i j) (drop-drop xs i j)

-- The progress after some lines that stood before `rest`.
pub record Advances (base : List Text) (old : ℕ) (new : List Text) (rest : List Text)
    (p q : Progress) : Type 0 where
  pub index : q.old_index ≡ p.old_index + old
  pub output : q.output ≡ p.output ++ new
  pub newline : q.ends_with_newline ≡ p.ends_with_newline
  pub left : drop q.old_index base ≡ rest

matches-drop :
    (base : List Text) (i : ℕ) (t : Text) (rest : List Text)
    → drop i base ≡ t ∷ rest
    → line_matches base i t ≡ true
matches-drop base i t rest h = rw (get_elem?-drop base i t rest h) (==_refl t)

apply_line-render :
    (base : List Text) (e : Edit) (rest : List Text) (p : Progress)
    → drop p.old_index base ≡ old_of (e ∷ []) ++ rest
    → (q : Progress) × (apply_line base (render e) p ≡ ok q)
      × Advances base (length (old_of (e ∷ []))) (new_of (e ∷ [])) rest p q
unfolding apply_line
apply_line-render base (keep_line t) rest p h = (
  record p { old_index = p.old_index + 1; output = p.output ++ t ∷ []; previous_kind = context },
  rw (matches-drop base p.old_index t rest h) refl,
  record { index = refl; output = refl; newline = refl; left = drop-suc base p.old_index t rest h },
)
apply_line-render base (delete_line t) rest p h = (
  record p { old_index = p.old_index + 1; previous_kind = removal },
  rw (matches-drop base p.old_index t rest h) refl,
  record {
    index = refl;
    output = sym (append-nil p.output);
    newline = refl;
    left = drop-suc base p.old_index t rest h;
  },
)
apply_line-render base (insert_line t) rest p h = (
  record p { output = p.output ++ t ∷ []; previous_kind = addition },
  refl,
  record { index = omega arith; output = refl; newline = refl; left = h },
)

old_of-cons : (e : Edit) (es : List Edit) → old_of (e ∷ es) ≡ old_of (e ∷ []) ++ old_of es
old_of-cons (keep_line t) es = refl
old_of-cons (delete_line t) es = refl
old_of-cons (insert_line t) es = refl

new_of-cons : (e : Edit) (es : List Edit) → new_of (e ∷ es) ≡ new_of (e ∷ []) ++ new_of es
new_of-cons (keep_line t) es = refl
new_of-cons (delete_line t) es = refl
new_of-cons (insert_line t) es = refl

pub apply_lines-render :
    (base : List Text) (es : List Edit) (rest : List Text) (p : Progress)
    → drop p.old_index base ≡ old_of es ++ rest
    → (q : Progress) × (apply_lines base (map render es) p ≡ ok q)
      × Advances base (length (old_of es)) (new_of es) rest p q
unfolding apply_lines
apply_lines-render base [] rest p h = (
  p,
  refl,
  record { index = omega arith; output = sym (append-nil p.output); newline = refl; left = h },
)
apply_lines-render base (e ∷ es) rest p h =
    let (q, step, a) = apply_line-render base e (old_of es ++ rest) p (
      h
      ∙ (ap (λ xs. xs ++ rest) (old_of-cons e es)
          ∙ append_assoc (old_of (e ∷ [])) (old_of es) rest)) in
    let (r, steps, b) = apply_lines-render base es rest q a.left in
    (
      r,
      rw step steps,
      record {
        index = omega (
          arith,
          a.index,
          b.index,
          ap length (old_of-cons e es),
          length-append (old_of (e ∷ [])) (old_of es),
        );
        output =
            b.output
            ∙ (ap (λ xs. xs ++ new_of es) a.output
                ∙ (append_assoc p.output (new_of (e ∷ [])) (new_of es)
                    ∙ ap (λ xs. p.output ++ xs) (sym (new_of-cons e es))));
        newline = b.newline ∙ a.newline;
        left = b.left;
      },
    )
