-- ===== src/Recovery/PatchPolicy/Contents.antt =====
-- What a file of a patch may be and do, and the reasons against it.
use coder_er.Base.{
  ◌≤◌, ◌≡◌, ◌≢◌, ◌↔◌, refl, sym, ◌∙◌, Bool, true, false, not, ◌&&◌, ◌||◌, List, [], ◌∷◌, ◌++◌, ltb,
  contains, Text, codes, starts_with, ◌==◌, nat_equality, list_equality, All, arith,
}
use coder_er.Recovery.PatchPolicy.{
  PosixPath, PatchHunk, PatchFile, RecoveryPolicy, Reason, no_provenance, is_generated_path,
  is_security_sensitive_path, is_migration_path, dependency_files, lock_files, infrastructure_files,
  push_if, is_add, is_delete, has_none, extension, hunk_reasons, content_reasons,
}

pub has_none-append : (rs ss : List Reason) → has_none (rs ++ ss) ≡ (has_none rs && has_none ss)
has_none-append [] ss = refl
has_none-append (r ∷ rs) ss = refl

pub has_none-push_if : (test : Bool) (r : Reason) → has_none (push_if test r) ≡ not test
has_none-push_if true r = refl
has_none-push_if false r = refl

conjuncts :
    (a1 a2 a3 a4 a5 a6 a7 a8 a9 a10 a11 a12 : Bool)
    → (a1 && a2 && a3 && a4 && a5 && a6 && a7 && a8 && a9 && a10 && a11 && a12) ≡ true
    → (a1 ≡ true)
      × (a2 ≡ true)
      × (a3 ≡ true)
      × (a4 ≡ true)
      × (a5 ≡ true)
      × (a6 ≡ true)
      × (a7 ≡ true)
      × (a8 ≡ true)
      × (a9 ≡ true)
      × (a10 ≡ true)
      × (a11 ≡ true)
      × (a12 ≡ true)
conjuncts a1 a2 a3 a4 a5 a6 a7 a8 a9 a10 a11 a12 h = ground arith

conjoined :
    (a1 a2 a3 a4 a5 a6 a7 a8 a9 a10 a11 a12 : Bool)
    → (a1 ≡ true)
      × (a2 ≡ true)
      × (a3 ≡ true)
      × (a4 ≡ true)
      × (a5 ≡ true)
      × (a6 ≡ true)
      × (a7 ≡ true)
      × (a8 ≡ true)
      × (a9 ≡ true)
      × (a10 ≡ true)
      × (a11 ≡ true)
      × (a12 ≡ true)
    → (a1 && a2 && a3 && a4 && a5 && a6 && a7 && a8 && a9 && a10 && a11 && a12) ≡ true
conjoined a1 a2 a3 a4 a5 a6 a7 a8 a9 a10 a11 a12 h = ground arith

-- A test that is let through.
permits : (asked allowed : Bool) → not (asked && not allowed) ≡ true → asked ≡ true → allowed ≡ true
permits asked allowed h e = ground arith

permitted :
    (asked allowed : Bool) → (asked ≡ true → allowed ≡ true) → not (asked && not allowed) ≡ true
permitted true allowed h = ground (arith, h refl)
permitted false allowed h = refl

module _ (p : PosixPath) (policy : RecoveryPolicy) where
  abbrev pub HasProvenance : PatchHunk → Type 0
  HasProvenance h = (1 ≤ h.treatment_plan_step) × (h.citations ≢ 0)

  hunks_lem :
      (path : Text) (hs : List PatchHunk)
      → (has_none (hunk_reasons p policy path hs) ≡ true) ↔ All HasProvenance hs
  hunks_lem path [] = (λ h. tt, λ h. refl)
  hunks_lem path (h ∷ hs) =
      let bad : Bool = ltb h.treatment_plan_step 1 || h.citations == 0 in
      ground (
        arith,
        has_none-append
            (push_if (ltb h.treatment_plan_step 1 || h.citations == 0)
              (no_provenance path h.sequence))
            (hunk_reasons p policy path hs),
        has_none-push_if (ltb h.treatment_plan_step 1 || h.citations == 0)
            (no_provenance path h.sequence),
        hunks_lem path hs,
      )

  -- What a file at a path may be and do.
  pub record IsPermittedContent (path : Text) (file : PatchFile) : Type 0 where
    pub type_approved : contains policy.allowed_extensions (extension p path) ≡ true
    pub textual : file.binary ≡ false
    pub new_file : is_add file.change_type ≡ true → policy.allow_new_files ≡ true
    pub deletion : is_delete file.change_type ≡ true → policy.allow_deleted_files ≡ true
    pub generated :
        (file.generated || is_generated_path path) ≡ true → policy.allow_generated_files ≡ true
    pub dependency :
        contains dependency_files (p.basename path) ≡ true → policy.allow_dependency_changes ≡ true
    pub lockfile :
        contains lock_files (p.basename path) ≡ true → policy.allow_lockfile_changes ≡ true
    pub workflow :
        starts_with path (codes ".github/workflows/") ≡ true → policy.allow_workflow_changes ≡ true
    pub infrastructure :
        (contains infrastructure_files (p.basename path) || starts_with path (codes "infra/"))
          ≡ true
        → policy.allow_infrastructure_changes ≡ true
    pub migration : is_migration_path path ≡ true → policy.allow_migration_changes ≡ true
    pub sensitive :
        (file.sensitive || is_security_sensitive_path path) ≡ true
        → policy.allow_security_sensitive_changes ≡ true
    pub provenance : All HasProvenance file.hunks

  content_clear :
      (path : Text) (file : PatchFile)
      → has_none (content_reasons p policy path file) ≡ (
          not (not (contains policy.allowed_extensions (extension p path)))
          && not (file.binary)
          && not (is_add file.change_type && not policy.allow_new_files)
          && not (is_delete file.change_type && not policy.allow_deleted_files)
          && not ((file.generated || is_generated_path path) && not policy.allow_generated_files)
          && not
              (contains dependency_files (p.basename path) && not policy.allow_dependency_changes)
          && not (contains lock_files (p.basename path) && not policy.allow_lockfile_changes)
          && not
              (starts_with path (codes ".github/workflows/") && not policy.allow_workflow_changes)
          && not (
              (contains infrastructure_files (p.basename path) || starts_with path (codes "infra/"))
              && not policy.allow_infrastructure_changes)
          && not (is_migration_path path && not policy.allow_migration_changes)
          && not (
              (file.sensitive || is_security_sensitive_path path)
              && not policy.allow_security_sensitive_changes)
          && has_none (hunk_reasons p policy path file.hunks))
  content_clear path file = simp (has_none-append, has_none-push_if)

  pub content_lem :
      (path : Text) (file : PatchFile)
      → (has_none (content_reasons p policy path file) ≡ true) ↔ IsPermittedContent path file
  content_lem path file = (
    λ clear.
        let (
          type, text, fresh, gone, made, depends, locked, flows, infra, migrates, touches, proven,
        ) =
          conjuncts (not (not (contains policy.allowed_extensions (extension p path))))
            (not (file.binary)) (not (is_add file.change_type && not policy.allow_new_files))
            (not (is_delete file.change_type && not policy.allow_deleted_files))
            (not ((file.generated || is_generated_path path) && not policy.allow_generated_files))
            (not
              (contains dependency_files (p.basename path) && not policy.allow_dependency_changes))
            (not (contains lock_files (p.basename path) && not policy.allow_lockfile_changes))
            (not
              (starts_with path (codes ".github/workflows/") && not policy.allow_workflow_changes))
            (not (
              (contains infrastructure_files (p.basename path) || starts_with path (codes "infra/"))
              && not policy.allow_infrastructure_changes))
            (not (is_migration_path path && not policy.allow_migration_changes))
            (not (
              (file.sensitive || is_security_sensitive_path path)
              && not policy.allow_security_sensitive_changes))
            (has_none (hunk_reasons p policy path file.hunks))
            (sym (content_clear path file) ∙ clear) in
        record {
          type_approved = ground (arith, type);
          textual = ground (arith, text);
          new_file = permits _ _ fresh;
          deletion = permits _ _ gone;
          generated = permits _ _ made;
          dependency = permits _ _ depends;
          lockfile = permits _ _ locked;
          workflow = permits _ _ flows;
          infrastructure = permits _ _ infra;
          migration = permits _ _ migrates;
          sensitive = permits _ _ touches;
          provenance = (hunks_lem path file.hunks).0 proven;
        },
    λ c.
        content_clear path file
        ∙ conjoined (not (not (contains policy.allowed_extensions (extension p path))))
            (not (file.binary)) (not (is_add file.change_type && not policy.allow_new_files))
            (not (is_delete file.change_type && not policy.allow_deleted_files))
            (not ((file.generated || is_generated_path path) && not policy.allow_generated_files))
            (not
              (contains dependency_files (p.basename path) && not policy.allow_dependency_changes))
            (not (contains lock_files (p.basename path) && not policy.allow_lockfile_changes))
            (not
              (starts_with path (codes ".github/workflows/") && not policy.allow_workflow_changes))
            (not (
              (contains infrastructure_files (p.basename path) || starts_with path (codes "infra/"))
              && not policy.allow_infrastructure_changes))
            (not (is_migration_path path && not policy.allow_migration_changes))
            (not (
              (file.sensitive || is_security_sensitive_path path)
              && not policy.allow_security_sensitive_changes))
            (has_none (hunk_reasons p policy path file.hunks))
            (
              rw (c.type_approved) refl,
              rw (c.textual) refl,
              permitted _ _ c.new_file,
              permitted _ _ c.deletion,
              permitted _ _ c.generated,
              permitted _ _ c.dependency,
              permitted _ _ c.lockfile,
              permitted _ _ c.workflow,
              permitted _ _ c.infrastructure,
              permitted _ _ c.migration,
              permitted _ _ c.sensitive,
              (hunks_lem path file.hunks).1 c.provenance,
            ),
  )
