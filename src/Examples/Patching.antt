-- ===== src/Examples/Patching.antt =====
-- The patch policy at concrete files.
use coder_er.Base.{
  ◌≡◌, ◌↔◌, refl, true, false, some, inl, inr, List, [], ◌∷◌, Text, codes, ok, err, All,
}
use coder_er.Publication.Patch.{ChangeType, modify, delete, rename}
use coder_er.Recovery.PatchPolicy.{
  PosixPath, PatchFile, RecoveryPolicy, absolute_policy_path, deletion_denied, normalize_path,
  matches_prefix, matches_some, reasons_at, file_reasons, all_reasons, evaluate_patch_policy,
}
use coder_er.Recovery.PatchPolicy.Permitted.{
  IsPermittedFile, IsWithinBudget, evaluate_patch_policy_iff, evaluate_patch_policy-old_path,
}

-- Paths that are normal already; the extension is always `.ts`.
abbrev plain : PosixPath
plain = record { normalize = λ t. t; basename = λ t. t; extname = λ t. codes ".ts" }

abbrev policy : RecoveryPolicy
policy = record {
  allowed_paths = codes "src/" ∷ [];
  denied_paths = codes "src/secret" ∷ [];
  allowed_extensions = codes ".ts" ∷ [];
  maximum_changed_files = 2;
  maximum_changed_lines = 10;
  maximum_patch_hunks = 3;
  maximum_patch_bytes = 1000;
  allow_new_files = true;
  allow_deleted_files = false;
  allow_generated_files = false;
  allow_dependency_changes = false;
  allow_lockfile_changes = false;
  allow_workflow_changes = false;
  allow_infrastructure_changes = false;
  allow_migration_changes = false;
  allow_security_sensitive_changes = false;
}

abbrev changed : ChangeType → Text → PatchFile
changed change path = record {
  old_path = some path;
  new_path = some path;
  change_type = change;
  added_lines = 2;
  deleted_lines = 1;
  binary = false;
  generated = false;
  sensitive = false;
  hunks = record { sequence = 1; treatment_plan_step = 1; citations = 1 } ∷ [];
}

allowed :
    evaluate_patch_policy plain policy (changed modify (codes "src/a.ts") ∷ []) 500 ≡ ok (true, [])
unfolding evaluate_patch_policy all_reasons file_reasons reasons_at normalize_path matches_some
    matches_prefix
allowed = refl

deleted :
    evaluate_patch_policy plain policy (changed delete (codes "src/a.ts") ∷ []) 500
    ≡ ok (false, deletion_denied (codes "src/a.ts") ∷ [])
unfolding evaluate_patch_policy all_reasons file_reasons reasons_at normalize_path matches_some
    matches_prefix
deleted = refl

absolute_scope :
    evaluate_patch_policy plain
      (record policy { allowed_paths = codes "/src" ∷ [] })
      (changed modify (codes "src/a.ts") ∷ [])
      500
    ≡ err absolute_policy_path
unfolding evaluate_patch_policy all_reasons file_reasons reasons_at normalize_path matches_some
    matches_prefix
absolute_scope = refl

abbrev moved : PatchFile
moved = record (changed rename (codes "src/b.ts")) { old_path = some (codes "infra/b.ts") }

-- A file is taken from outside the scope.
moved_in : evaluate_patch_policy plain policy (moved ∷ []) 500 ≡ ok (true, [])
unfolding evaluate_patch_policy all_reasons file_reasons reasons_at normalize_path matches_some
    matches_prefix
moved_in = refl

evaluate_patch_policy_iff_example : (true ≡ true) ↔ (
    IsWithinBudget plain policy (changed modify (codes "src/a.ts") ∷ []) 500
    × All (IsPermittedFile plain policy) (changed modify (codes "src/a.ts") ∷ []))
evaluate_patch_policy_iff_example =
    evaluate_patch_policy_iff plain policy (changed modify (codes "src/a.ts") ∷ []) 500 allowed

-- A change of one file, and a file that is moved into the scope or stays in it.
abbrev before_move : List PatchFile
before_move = changed modify (codes "src/a.ts") ∷ moved ∷ []

abbrev after_move : List PatchFile
after_move = changed modify (codes "src/a.ts") ∷ changed rename (codes "src/b.ts") ∷ []

evaluate_patch_policy-old_path_example :
    evaluate_patch_policy plain policy before_move 500
    ≡ evaluate_patch_policy plain policy after_move 500
evaluate_patch_policy-old_path_example =
    evaluate_patch_policy-old_path plain policy before_move after_move 500
      (inl refl, (inr (codes "src/b.ts", refl, refl), tt))
