-- ===== src/Publication/Patch/Paths/Guards.antt =====
-- What the guards of a patch's paths keep out, and what they let through.
use coder_er.Base.{
  ℕ, ◌≡◌, refl, sym, ap, ◌∙◌, Bool, true, false, ◌||◌, List, [], ◌∷◌, ◌++◌, Text, codes, contains,
  ◌==◌, nat_equality, list_equality, if◌then◌else◌, Result, ok, throw_if-passed, arith, Bool-cases,
  ◌⊎◌, inl, inr, All, subst,
}
use coder_er.Publication.Patch.Paths.{
  put_first, segments, join_segments, strip_end, to_slashes, is_absolute, has_drive, drop_dot,
  is_git, candidate, guard_path, normalize_patch_path, PathError, absolute_or_invalid,
  path_traversal,
}

put_segment :
    (c : ℕ) (s : Text) (ss : List Text)
    → (c == 47) ≡ false
    → segments s ≡ ss
    → All (λ t. contains t 47 ≡ false) ss
    → All (λ t. contains t 47 ≡ false) (segments (c ∷ s))
put_segment c s [] other e clean = rw (other, e) (ground (arith, other), tt)
put_segment c s (t ∷ ss) other e clean = rw (other, e) (ground (arith, other, clean.0), clean.1)

segments-clean : (s : Text) → All (λ t. contains t 47 ≡ false) (segments s)
segments-clean [] = (refl, tt)
segments-clean (c ∷ s) = elim (Bool-cases (c == 47)) [
  | inl slash ↦ rw slash (refl, segments-clean s)
  | inr other ↦ put_segment c s (segments s) other refl (segments-clean s)
]

abbrev is_some_segment : List Text → Bool
is_some_segment [] = false
is_some_segment (s ∷ ss) = true

some_put :
    (c : ℕ) (ss : List Text)
    → is_some_segment ss ≡ true
    → is_some_segment (if c == 47 then [] ∷ ss else put_first c ss) ≡ true
some_put c [] h = cc
some_put c (s ∷ ss) h = ground arith

joined :
    (c : ℕ) (ss : List Text)
    → is_some_segment ss ≡ true
    → join_segments (if c == 47 then [] ∷ ss else put_first c ss) ≡ c ∷ join_segments ss
joined c [] h = cc
joined c (s ∷ []) h = ground arith
joined c (s ∷ t ∷ ss) h = ground arith

segments-some : (s : Text) → is_some_segment (segments s) ≡ true
segments-some [] = refl
segments-some (c ∷ s) = some_put c (segments s) (segments-some s)

-- Joining the segments of a text gives the text, and segments without a slash are found again.
join_segments-segments : (s : Text) → join_segments (segments s) ≡ s
join_segments-segments [] = refl
join_segments-segments (c ∷ s) =
    joined c (segments s) (segments-some s) ∙ ap (λ t. c ∷ t) (join_segments-segments s)

segments-one : (s : Text) → contains s 47 ≡ false → segments s ≡ s ∷ []
segments-one [] clean = refl
segments-one (c ∷ s) clean =
    let here : (c == 47) ≡ false = ground (arith, clean) in
    rw (here, segments-one s (ground (arith, clean))) refl

segments-append : (s j : Text) → contains s 47 ≡ false → segments (s ++ 47 ∷ j) ≡ s ∷ segments j
segments-append [] j clean = refl
segments-append (c ∷ s) j clean =
    let here : (c == 47) ≡ false = ground (arith, clean) in
    rw (here, segments-append s j (ground (arith, clean))) refl

segments-join :
    (s : Text) (ss : List Text)
    → All (λ t. contains t 47 ≡ false) (s ∷ ss)
    → segments (join_segments (s ∷ ss)) ≡ s ∷ ss
segments-join s [] clean = segments-one s clean.0
segments-join s (t ∷ ss) clean =
    segments-append s (join_segments (t ∷ ss)) clean.0
    ∙ ap (λ ts. s ∷ ts) (segments-join t ss clean.1)

rest_of :
    (ss : List Text)
    → All (λ t. contains t 47 ≡ false) ss
    → contains ss (codes "..") ≡ false
    → contains (segments (join_segments ss)) (codes "..") ≡ false
rest_of [] clean none = refl
rest_of (s ∷ ss) clean none = rw (segments-join s ss clean) none

strip_end-plain : (t : Text) → contains t 34 ≡ false → strip_end t ≡ t
strip_end-plain [] h = refl
strip_end-plain (c ∷ []) h = ground (arith, h)
strip_end-plain (c ∷ d ∷ t) h = ap (λ u. c ∷ u) (strip_end-plain (d ∷ t) (ground (arith, h)))

to_slashes-plain : (t : Text) → contains t 92 ≡ false → to_slashes t ≡ t
to_slashes-plain [] h = refl
to_slashes-plain (c ∷ t) h = ground (arith, h, to_slashes-plain t)

-- No `..` is among the segments that are left when a first `.` is dropped.
dropped :
    (ss : List Text)
    → All (λ t. contains t 47 ≡ false) ss
    → contains ss (codes "..") ≡ false
    → contains (segments (join_segments (drop_dot ss))) (codes "..") ≡ false
dropped [] clean none = refl
dropped (s ∷ ss) clean none = elim (Bool-cases (s == codes ".")) [
  | inl dot ↦ rw dot (rest_of ss clean.1 (ground (arith, none)))
  | inr other ↦ rw (other, segments-join s ss clean) none
]

guard_path-no_parent :
    (path p : Text) → guard_path path ≡ ok p → contains (segments p) (codes "..") ≡ false
unfolding guard_path
guard_path-no_parent path p h =
    let (_, h1) =
      throw_if-passed (contains path 0 || is_absolute path || has_drive path) absolute_or_invalid _
        h in
    let (safe, done) =
      throw_if-passed (contains (segments path) (codes "..") || is_git (segments path))
        path_traversal _ h1 in
    let same : join_segments (drop_dot (segments path)) ≡ p = cc in
    subst (λ q. contains (segments q) (codes "..") ≡ false) same
      (dropped (segments path) (segments-clean path) (ground (arith, safe)))

special_safe :
    (path : Text)
    → (path == [] || path == codes "/dev/null") ≡ true
    → contains (segments path) (codes "..") ≡ false
special_safe [] special = refl
special_safe (c ∷ path) special =
    let same : c ∷ path ≡ codes "/dev/null" =
      ((list_equality {A = ℕ} ⦃e = nat_equality⦄).beq_iff (c ∷ path) (codes "/dev/null")).0
        special in
    subst (λ q. contains (segments q) (codes "..") ≡ false) (sym same) refl

either_way :
    (test : Bool) {path p : Text} {m : Result PathError Text}
    → (if test then ok path else m) ≡ ok p
    → (test ≡ true) × (path ≡ p) ⊎ m ≡ ok p
either_way true h = inl (refl, cc)
either_way false h = inr h

tested-no_parent :
    (path p : Text)
    → (if path == [] || path == codes "/dev/null" then ok path else guard_path path) ≡ ok p
    → contains (segments p) (codes "..") ≡ false
tested-no_parent path p h = elim (either_way (path == [] || path == codes "/dev/null") h) [
  | inl special ↦
      subst (λ q. contains (segments q) (codes "..") ≡ false) special.1
        (special_safe path special.0)
  | inr guarded ↦ guard_path-no_parent path p guarded
]

-- A path that is accepted has no segment `..`.
pub normalize_patch_path-no_parent :
    (value p : Text)
    → normalize_patch_path value ≡ ok p
    → contains (segments p) (codes "..") ≡ false
unfolding normalize_patch_path
normalize_patch_path-no_parent value p h = tested-no_parent (candidate value) p h

no_drive : (t : Text) → has_drive (codes "./" ++ t) ≡ false
no_drive [] = refl
no_drive (c ∷ t) = refl

guard_path-dot :
    (t : Text)
    → contains t 0 ≡ false
    → contains (segments t) (codes "..") ≡ false
    → guard_path (codes "./" ++ t) ≡ ok t
unfolding guard_path
guard_path-dot t no_nul no_parent =
    rw (no_nul, no_drive t, no_parent, join_segments-segments t) refl

tested-dot :
    (path t : Text)
    → path ≡ codes "./" ++ t
    → guard_path (codes "./" ++ t) ≡ ok t
    → (if path == [] || path == codes "/dev/null" then ok path else guard_path path) ≡ ok t
tested-dot path t same guarded =
    subst (λ q. (if q == [] || q == codes "/dev/null" then ok q else guard_path q) ≡ ok t)
      (sym same) guarded

candidate-dot :
    (t : Text)
    → contains t 34 ≡ false
    → contains t 92 ≡ false
    → candidate (codes "./" ++ t) ≡ codes "./" ++ t
candidate-dot t no_quote no_backslash =
    ap to_slashes (strip_end-plain (46 ∷ 47 ∷ t) no_quote)
    ∙ to_slashes-plain (46 ∷ 47 ∷ t) no_backslash

-- The guards look at the text before a first `./` is dropped: behind it every text without a quote,
-- a backslash, a NUL and a segment `..` is accepted as it stands, also one that begins with `/` or
-- with `.git/`.
pub normalize_patch_path-dot :
    (t : Text)
    → contains t 34 ≡ false
    → contains t 92 ≡ false
    → contains t 0 ≡ false
    → contains (segments t) (codes "..") ≡ false
    → normalize_patch_path (codes "./" ++ t) ≡ ok t
unfolding normalize_patch_path
normalize_patch_path-dot t no_quote no_backslash no_nul no_parent =
    tested-dot (candidate (codes "./" ++ t)) t (candidate-dot t no_quote no_backslash)
      (guard_path-dot t no_nul no_parent)
