-- ===== src/Recovery/PatchPolicy/Permitted.antt =====
-- A patch is allowed exactly when all of it is permitted.
use coder_er.Base.{
  ℕ, ◌≤◌, ◌≡◌, ◌↔◌, refl, sym, ap, ◌∙◌, subst, Bool, true, false, not, ◌&&◌, Option, some, List, [],
  ◌∷◌, ◌++◌, length, ltb, Text, nat_equality, list_equality, Result, ok, err, >>=-eq-ok, All, arith,
  &&_parts, &&_intro, suc, ◌+◌, ◌⊎◌, inl, inr,
}
use coder_er.Recovery.PatchPolicy.{
  PosixPath, PatchFile, RecoveryPolicy, PathFault, Reason, bad_path, too_many_files, too_many_lines,
  too_many_hunks, too_many_bytes, out_of_scope, path_denied, push_if, path_of, first_named,
  has_none, normalize_path, matches_some, content_reasons, reasons_at, file_reasons, all_reasons,
  changed_lines, hunk_count, budget_reasons, evaluate_patch_policy,
}
use coder_er.Recovery.PatchPolicy.Contents.{has_none-append, IsPermittedContent, content_lem}

module _ (p : PosixPath) (policy : RecoveryPolicy) where
  abbrev pub IsPermittedAt : Text → PatchFile → Type 0
  IsPermittedAt path file =
      (matches_some p path policy.allowed_paths ≡ ok true)
      × (matches_some p path policy.denied_paths ≡ ok false)
      × IsPermittedContent p policy path file

  -- What a file may be, where it stands and what it may do.
  abbrev pub IsPermittedFile : PatchFile → Type 0
  IsPermittedFile file =
      (path : Text) × (normalize_path p (path_of file) ≡ ok path) × IsPermittedAt path file

  scope_lem :
      (path : Text) (file : PatchFile) (in_scope denied : Bool)
      → matches_some p path policy.allowed_paths ≡ ok in_scope
      → matches_some p path policy.denied_paths ≡ ok denied
      → (has_none (
            push_if (not in_scope) (out_of_scope path)
            ++ (push_if denied (path_denied path) ++ content_reasons p policy path file))
          ≡ true)
        ↔ IsPermittedAt path file
  scope_lem path file false denied found refused = (λ h. cc, λ (a, b, c). cc)
  scope_lem path file true true found refused = (λ h. cc, λ (a, b, c). cc)
  scope_lem path file true false found refused = (
    λ h. (found, refused, (content_lem p policy path file).0 h),
    λ (a, b, c). (content_lem p policy path file).1 c,
  )

  reasons_at_lem :
      (file : PatchFile) (normal : Result PathFault Text) (rs : List Reason)
      → reasons_at p policy file normal ≡ ok rs
      → (has_none rs ≡ true) ↔ ((path : Text) × (normal ≡ ok path) × IsPermittedAt path file)
  unfolding reasons_at
  reasons_at_lem file (err fault) rs e =
      let same : bad_path fault ∷ [] ≡ rs = cc in
      (λ h. absurd (refuted (ap has_none same ∙ h)), λ (path, bad, rest). cc)
    where
      refuted : false ≡ true → ⊥
      refuted h = cc
  reasons_at_lem file (ok path) rs e =
      let (in_scope, found, e1) = >>=-eq-ok (matches_some p path policy.allowed_paths) _ e in
      let (denied, refused, e2) = >>=-eq-ok (matches_some p path policy.denied_paths) _ e1 in
      let rs' : List Reason =
        push_if (not in_scope) (out_of_scope path)
        ++ (push_if denied (path_denied path) ++ content_reasons p policy path file) in
      let same : rs' ≡ rs = cc in
      let scope = scope_lem path file in_scope denied found refused in
      (
        λ h. (path, refl, scope.0 (ap has_none same ∙ h)),
        λ (other, eq, at).
            let back : other ≡ path = cc in
            ap has_none (sym same) ∙ scope.1 (subst (λ q. IsPermittedAt q file) back at),
      )

  all_reasons_lem :
      (files : List PatchFile) (rs : List Reason)
      → all_reasons p policy files ≡ ok rs
      → (has_none rs ≡ true) ↔ All IsPermittedFile files
  unfolding all_reasons file_reasons
  all_reasons_lem [] rs e = let same : [] ≡ rs = cc in (λ h. tt, λ h. ap has_none (sym same))
  all_reasons_lem (file ∷ files) rs e =
      let (here, found, e1) = >>=-eq-ok (file_reasons p policy file) _ e in
      let (later, rest, e2) = >>=-eq-ok (all_reasons p policy files) _ e1 in
      let same : here ++ later ≡ rs = cc in
      let first = reasons_at_lem file (normalize_path p (path_of file)) here found in
      let others = all_reasons_lem files later rest in
      let both : has_none rs ≡ (has_none here && has_none later) =
        ap has_none (sym same) ∙ has_none-append here later in
      (
        λ h. (
          first.0 ((&&_parts (has_none here) (has_none later) (sym both ∙ h)).0),
          others.0 ((&&_parts (has_none here) (has_none later) (sym both ∙ h)).1),
        ),
        λ (h, hs). both ∙ &&_intro (has_none here) (has_none later) (first.1 h) (others.1 hs),
      )

  -- The numbers are within the policy's budgets.
  abbrev pub IsWithinBudget : List PatchFile → ℕ → Type 0
  IsWithinBudget files patch_bytes =
      (length files ≤ policy.maximum_changed_files)
      × (changed_lines p policy files ≤ policy.maximum_changed_lines)
      × (hunk_count p policy files ≤ policy.maximum_patch_hunks)
      × (patch_bytes ≤ policy.maximum_patch_bytes)

  budget_lem :
      (files : List PatchFile) (patch_bytes : ℕ)
      → (has_none (budget_reasons p policy files patch_bytes) ≡ true)
        ↔ IsWithinBudget files patch_bytes
  budget_lem files patch_bytes =
      budgets (length files) policy.maximum_changed_files (changed_lines p policy files)
        policy.maximum_changed_lines (hunk_count p policy files) policy.maximum_patch_hunks
        patch_bytes policy.maximum_patch_bytes
    where
      budgets :
          (f mf l ml h mh b mb : ℕ)
          → (has_none (
                push_if (ltb mf f) too_many_files
                ++ (push_if (ltb ml l) too_many_lines
                    ++ (push_if (ltb mh h) too_many_hunks ++ push_if (ltb mb b) too_many_bytes)))
              ≡ true)
            ↔ ((f ≤ mf) × (l ≤ ml) × (h ≤ mh) × (b ≤ mb))
      budgets f mf l ml h mh b mb = ground arith

  -- A patch that the policy decides on is allowed exactly when it is within every budget and each of
  -- its files is permitted: its path can be normalized, is in the approved scope and not denied, and
  -- what the file is and does is approved, each hunk with its provenance.
  pub evaluate_patch_policy_iff :
      (files : List PatchFile) (patch_bytes : ℕ) {allowed : Bool} {reasons : List Reason}
      → evaluate_patch_policy p policy files patch_bytes ≡ ok (allowed, reasons)
      → (allowed ≡ true) ↔ (IsWithinBudget files patch_bytes × All IsPermittedFile files)
  unfolding evaluate_patch_policy
  evaluate_patch_policy_iff files patch_bytes {allowed} {reasons} e =
      let (found, e1, e2) = >>=-eq-ok (all_reasons p policy files) _ e in
      let budget : List Reason = budget_reasons p policy files patch_bytes in
      let same : has_none (budget ++ found) ≡ allowed = cc in
      let both : allowed ≡ (has_none budget && has_none found) =
        sym same ∙ has_none-append budget found in
      let first = budget_lem files patch_bytes in
      let others = all_reasons_lem files found e1 in
      (
        λ h. (
          first.0 ((&&_parts (has_none budget) (has_none found) (sym both ∙ h)).0),
          others.0 ((&&_parts (has_none budget) (has_none found) (sym both ∙ h)).1),
        ),
        λ (h, hs). both ∙ &&_intro (has_none budget) (has_none found) (first.1 h) (others.1 hs),
      )

  same_reasons :
      (file : PatchFile) (old : Option Text) (normal : Result PathFault Text)
      → reasons_at p policy file normal
        ≡ reasons_at p policy (record file { old_path = old }) normal
  unfolding reasons_at
  same_reasons file old (err fault) = refl
  same_reasons file old (ok path) = refl

  same_file :
      (file : PatchFile) (new : Text) (old : Option Text)
      → file.new_path ≡ some new
      → file_reasons p policy file ≡ file_reasons p policy (record file { old_path = old })
  unfolding file_reasons
  same_file file new old e =
      let path : path_of file ≡ path_of (record file { old_path = old }) =
        ap (λ n. first_named n file.old_path) e ∙ sym (ap (λ n. first_named n old) e) in
      same_reasons file old (normalize_path p (path_of file))
      ∙ ap (λ q. reasons_at p policy (record file { old_path = old }) (normalize_path p q)) path

  -- The same file, or the same but for the path that it had before, where it has a path now.
  abbrev pub IsSameButOld : PatchFile → PatchFile → Type 0
  IsSameButOld f g =
      (f ≡ g) ⊎ ((new : Text) × (f.new_path ≡ some new) × (record f { old_path = g.old_path } ≡ g))

  abbrev pub AreSameButOld : List PatchFile → List PatchFile → Type 0
  AreSameButOld [] [] = Unit
  AreSameButOld [] (g ∷ gs) = ⊥
  AreSameButOld (f ∷ fs) [] = ⊥
  AreSameButOld (f ∷ fs) (g ∷ gs) = IsSameButOld f g × AreSameButOld fs gs

  -- What is read of a file agrees: its reasons, its changed lines and its hunks.
  same_file_reasons :
      (f g : PatchFile)
      → IsSameButOld f g
      → (file_reasons p policy f ≡ file_reasons p policy g)
        × (f.added_lines + f.deleted_lines ≡ g.added_lines + g.deleted_lines)
        × (length f.hunks ≡ length g.hunks)
  same_file_reasons f g (inl same) = (
    ap (file_reasons p policy) same,
    ap (λ (x : PatchFile). x.added_lines + x.deleted_lines) same,
    ap (λ (x : PatchFile). length x.hunks) same,
  )
  same_file_reasons f g (inr (new, named, same)) = (
    same_file f new g.old_path named ∙ ap (file_reasons p policy) same,
    ap (λ (x : PatchFile). x.added_lines + x.deleted_lines) same,
    ap (λ (x : PatchFile). length x.hunks) same,
  )

  same_files :
      (fs gs : List PatchFile)
      → AreSameButOld fs gs
      → (all_reasons p policy fs ≡ all_reasons p policy gs)
        × (length fs ≡ length gs)
        × (changed_lines p policy fs ≡ changed_lines p policy gs)
        × (hunk_count p policy fs ≡ hunk_count p policy gs)
  unfolding all_reasons
  same_files [] [] h = (refl, refl, refl, refl)
  same_files [] (g ∷ gs) h = absurd h
  same_files (f ∷ fs) [] h = absurd h
  same_files (f ∷ fs) (g ∷ gs) (here, later) =
      let (reasons, lines, hunks) = same_file_reasons f g here in
      let (all_same, count, all_lines, all_hunks) = same_files fs gs later in
      (
        rw (reasons, all_same) refl,
        ap suc count,
        rw (lines, all_lines) refl,
        rw (hunks, all_hunks) refl,
      )

  -- The path that a file had before is not looked at where it has one now: two patches whose files
  -- differ in such paths alone, in any number of files, get the same decision for the same reasons. A
  -- renamed file may come from anywhere.
  pub evaluate_patch_policy-old_path :
      (fs gs : List PatchFile) (patch_bytes : ℕ)
      → AreSameButOld fs gs
      → evaluate_patch_policy p policy fs patch_bytes
        ≡ evaluate_patch_policy p policy gs patch_bytes
  unfolding evaluate_patch_policy
  evaluate_patch_policy-old_path fs gs patch_bytes h =
      let (reasons, count, lines, hunks) = same_files fs gs h in
      rw (reasons, count, lines, hunks) refl
