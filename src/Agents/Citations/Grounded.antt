-- ===== src/Agents/Citations/Grounded.antt =====
-- Citations checked against the items of the committed context.
use coder_er.Base.{
  ℕ, zero, suc, ◌<◌, ◌/◌, ltb, Bool-cases, ◌≤◌, ◌≡◌, ◌≢◌, ◌↔◌, inl, inr, refl, sym, ◌∙◌, ap, Bool,
  true, false, not, ◌&&◌, Option, none, some, List, [], ◌∷◌, ◌++◌, map, contains, Text, ◌==◌,
  nat_equality, list_equality, ==_sym, Equality, Option-cases, All, arith,
}
use coder_er.Agents.Citations.{
  digits, InvestigationCitation, ContextItem, Problem, source_key, citation_key, item_of,
  problem_if, differ, above, item_problems, check_citations, is_empty, validate_citations,
}

-- More fuel than the number does not change its digits.
digits-enough : (fuel n : ℕ) → n < fuel → digits (suc fuel) n ≡ digits fuel n
digits-enough zero n h = absurd (omega arith)
digits-enough (suc fuel) n h = elim (Bool-cases (ltb n 10)) [
  | inl small ↦ rw small refl
  | inr large ↦ let rest = digits-enough fuel (n / 10) (ground (arith, large)) in rw rest refl
]

pub is_empty-append : (ps qs : List Problem) → is_empty (ps ++ qs) ≡ (is_empty ps && is_empty qs)
is_empty-append [] qs = refl
is_empty-append (p ∷ ps) qs = refl

pub is_empty-problem_if : (test : Bool) (p : Problem) → is_empty (problem_if test p) ≡ not test
is_empty-problem_if true p = refl
is_empty-problem_if false p = refl

-- No text of a list stands in it twice.
abbrev pub IsDistinct : List Text → Type 0
IsDistinct [] = Unit
IsDistinct (t ∷ ts) = (contains ts t ≡ false) × IsDistinct ts

-- No text of the second list stands in the first.
abbrev pub IsFresh : List Text → List Text → Type 0
IsFresh seen ts = All (λ t. contains seen t ≡ false) ts

some_injective : {A : Type 0} {a b : A} → some a ≡ some b → a ≡ b
some_injective h = cc

equal_texts : (s t : Text) → (not (s == t) ≡ false) ↔ (s ≡ t)
equal_texts s t = let texts : Equality Text = list_equality in ground (arith, texts.beq_iff s t)

nothing_seen : (ts : List Text) → IsFresh [] ts
nothing_seen [] = tt
nothing_seen (t ∷ ts) = (refl, nothing_seen ts)

abbrev SamePath : Option Text → Option Text → Type 0
SamePath p q = (a b : Text) → p ≡ some a → q ≡ some b → a ≢ [] → b ≢ [] → a ≡ b

differ_iff : (p q : Option Text) → (differ p q ≡ false) ↔ SamePath p q
differ_iff none q = (λ h. λ a b e f n m. cc, λ h. refl)
differ_iff (some p) none = (λ h. λ a b e f n m. cc, λ h. refl)
differ_iff (some []) (some q) = (λ h. λ a b e f n m. absurd (n (some_injective (sym e))), λ h. refl)
differ_iff (some (c ∷ p)) (some []) =
    (λ h. λ a b e f n m. absurd (m (some_injective (sym f))), λ h. refl)
differ_iff (some (c ∷ p)) (some (d ∷ q)) = (
  λ h. λ a b e f n m. sym (some_injective e) ∙ (equal_texts (c ∷ p) (d ∷ q)).0 h ∙ some_injective f,
  λ h. (equal_texts (c ∷ p) (d ∷ q)).1 (h _ _ refl refl (λ z. cc) (λ z. cc)),
)

abbrev NotAbove : Option ℕ → Option ℕ → Type 0
NotAbove p q = (a b : ℕ) → p ≡ some a → q ≡ some b → b ≤ a

above_iff : (p q : Option ℕ) → (above p q ≡ false) ↔ NotAbove p q
above_iff none q = (λ h. λ a b e f. cc, λ h. refl)
above_iff (some a) none = (λ h. λ a b e f. cc, λ h. refl)
above_iff (some a) (some b) = (
  λ h. λ x y e f.
      let first : a ≡ x = some_injective e in let second : b ≡ y = some_injective f in ground arith,
  λ h. let le = h a b refl refl in ground (arith, le),
)

three : (a b c : Bool) → (not a && not b && not c) ≡ true → (a ≡ false) × (b ≡ false) × (c ≡ false)
three a b c h = ground arith

of_three : (a b c : Bool) → a ≡ false → b ≡ false → c ≡ false → (not a && not b && not c) ≡ true
of_three a b c h k l = ground arith

-- A citation names an item of the context, and what it says of the path and of the lines lies
-- within what the item says.
pub record IsGrounded (items : List ContextItem) (c : InvestigationCitation) : Type 0 where
  pub item : ContextItem
  pub committed : item_of items (source_key c.source_type c.source_id c.digest) ≡ some item
  pub same_path : (p q : Text) → c.path ≡ some p → item.path ≡ some q → p ≢ [] → q ≢ [] → p ≡ q
  pub begins :
      (cited first : ℕ) → c.line_start ≡ some cited → item.line_start ≡ some first → first ≤ cited
  pub ends : (cited last : ℕ) → c.line_end ≡ some cited → item.line_end ≡ some last → cited ≤ last

module _ (items : List ContextItem) where
  item_problems_lem :
      (item : ContextItem) (c : InvestigationCitation)
      → is_empty (item_problems item c) ≡ (
          not (differ c.path item.path)
          && not (above c.line_start item.line_start)
          && not (above item.line_end c.line_end))
  unfolding item_problems
  item_problems_lem item c = simp (is_empty-append, is_empty-problem_if)

  IsGrounded-iff :
      (item : ContextItem) (c : InvestigationCitation)
      → item_of items (source_key c.source_type c.source_id c.digest) ≡ some item
      → (is_empty (item_problems item c) ≡ true) ↔ IsGrounded items c
  IsGrounded-iff item c e = (
    λ h.
        let (path, first, last) = three _ _ _ (sym (item_problems_lem item c) ∙ h) in
        record {
          item = item;
          committed = e;
          same_path = (differ_iff c.path item.path).0 path;
          begins = (above_iff c.line_start item.line_start).0 first;
          ends = λ cited top f g. (above_iff item.line_end c.line_end).0 last top cited g f;
        },
    λ g.
        let same = some_injective (sym g.committed ∙ e) in
        item_problems_lem item c
        ∙ of_three _ _ _
            ((differ_iff c.path item.path).1
              (λ p q f h. g.same_path p q f (ap (λ i. ContextItem.path i) same ∙ h)))
            ((above_iff c.line_start item.line_start).1
              (λ p q f h. g.begins p q f (ap (λ i. ContextItem.line_start i) same ∙ h)))
            ((above_iff item.line_end c.line_end).1
              (λ p q f h. g.ends q p h (ap (λ i. ContextItem.line_end i) same ∙ f))),
  )

  abbrev KeysAreFresh : List Text → List InvestigationCitation → Type 0
  KeysAreFresh seen cs = IsFresh seen (map citation_key cs) × IsDistinct (map citation_key cs)

  fresh_lem :
      (seen ts : List Text) (t : Text)
      → IsFresh (t ∷ seen) ts ↔ (IsFresh seen ts × (contains ts t ≡ false))
  fresh_lem seen [] t = (λ h. (tt, refl), λ h. tt)
  fresh_lem seen (u ∷ ts) t = ground (arith, fresh_lem seen ts t, ==_sym t u)

  -- A key that has been seen, and the rest of the keys.
  IsFresh-iff :
      (seen ts : List Text) (t : Text)
      → ((contains seen t ≡ false) × IsFresh (t ∷ seen) ts × IsDistinct ts)
        ↔ (IsFresh seen (t ∷ ts) × IsDistinct (t ∷ ts))
  IsFresh-iff seen ts t = ground (arith, fresh_lem seen ts t)

  check_citations-committed :
      (seen : List Text) (c : InvestigationCitation) (cs : List InvestigationCitation)
      (item : ContextItem)
      → item_of items (source_key c.source_type c.source_id c.digest) ≡ some item
      → is_empty (check_citations items seen (c ∷ cs)) ≡ (
          is_empty (item_problems item c)
          && not (contains seen (citation_key c))
          && is_empty (check_citations items (citation_key c ∷ seen) cs))
  unfolding check_citations
  check_citations-committed seen c cs item e =
      rw (check_citations, e) (simp (is_empty-append, is_empty-problem_if))

  check_citations-not_committed :
      (seen : List Text) (c : InvestigationCitation) (cs : List InvestigationCitation)
      → item_of items (source_key c.source_type c.source_id c.digest) ≡ none
      → is_empty (check_citations items seen (c ∷ cs)) ≡ false
  unfolding check_citations
  check_citations-not_committed seen c cs e = rw (check_citations, is_empty, e) refl

  check_citations-nil : (seen : List Text) → is_empty (check_citations items seen []) ≡ true
  unfolding check_citations
  check_citations-nil seen = refl

  pub check_citations_iff :
      (seen : List Text) (cs : List InvestigationCitation)
      → (is_empty (check_citations items seen cs) ≡ true)
        ↔ (All (IsGrounded items) cs × KeysAreFresh seen cs)
  check_citations_iff seen [] = (λ h. (tt, (tt, tt)), λ h. check_citations-nil seen)
  check_citations_iff seen (c ∷ cs) =
      elim (Option-cases (item_of items (source_key c.source_type c.source_id c.digest))) [
        | inl missing ↦ (
          λ h. cc (check_citations-not_committed seen c cs missing, h),
          λ h. let g : IsGrounded items c = h.0.0 in cc (g.committed, missing),
        )
        | inr (item, found) ↦ ground (
          arith,
          check_citations-committed seen c cs item found,
          IsGrounded-iff item c found,
          check_citations_iff (citation_key c ∷ seen) cs,
          IsFresh-iff seen (map citation_key cs) (citation_key c),
        )
      ]

-- The errors of a result are what its validity is read from.
pub validate_citations-errors :
    (cs : List InvestigationCitation) (items : List ContextItem)
    → is_empty (validate_citations cs items).errors ≡ (validate_citations cs items).valid
unfolding validate_citations
validate_citations-errors cs items = refl

-- A result is valid exactly when each citation is grounded in the context and no two have one key.
pub validate_citations_iff :
    (cs : List InvestigationCitation) (items : List ContextItem)
    → ((validate_citations cs items).valid ≡ true)
      ↔ (All (IsGrounded items) cs × IsDistinct (map citation_key cs))
unfolding validate_citations
validate_citations_iff cs items =
    let fresh : IsFresh [] (map citation_key cs) = nothing_seen (map citation_key cs) in
    ground (arith, check_citations_iff items [] cs)
