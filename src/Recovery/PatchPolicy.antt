-- ===== src/Recovery/PatchPolicy.antt =====
-- Which patches a recovery policy lets through: `evaluatePatchPolicy` (packages/recovery/src/
-- policy.ts). `path.posix` is a parameter. A reason is a constructor with the path of its message.
pub mod Contents
pub mod Permitted
use coder_er.Base.{
  ℕ, ◌+◌, Bool, true, false, not, ◌&&◌, ◌||◌, Option, none, some, List, [], ◌∷◌, ◌++◌, map, any,
  length, ltb, contains, Text, codes, lower, starts_with, includes_text, ◌==◌, nat_equality,
  list_equality, if◌then◌else◌, Result, ok, err, throw_if, ◌>>=◌, ◌>>◌,
}
use coder_er.Publication.Patch.{ChangeType, add, modify, delete, rename}
use coder_er.Publication.Patch.Paths.{is_absolute, has_drive, to_slashes}

pub record PosixPath : Type 0 where
  pub normalize : Text → Text
  pub basename : Text → Text
  pub extname : Text → Text

pub record PatchHunk : Type 0 where
  pub sequence : ℕ
  pub treatment_plan_step : ℕ
  pub citations : ℕ

pub record PatchFile : Type 0 where
  pub old_path : Option Text
  pub new_path : Option Text
  pub change_type : ChangeType
  pub added_lines : ℕ
  pub deleted_lines : ℕ
  pub binary : Bool
  pub generated : Bool
  pub sensitive : Bool
  pub hunks : List PatchHunk

pub record RecoveryPolicy : Type 0 where
  pub allowed_paths : List Text
  pub denied_paths : List Text
  pub allowed_extensions : List Text
  pub maximum_changed_files : ℕ
  pub maximum_changed_lines : ℕ
  pub maximum_patch_hunks : ℕ
  pub maximum_patch_bytes : ℕ
  pub allow_new_files : Bool
  pub allow_deleted_files : Bool
  pub allow_generated_files : Bool
  pub allow_dependency_changes : Bool
  pub allow_lockfile_changes : Bool
  pub allow_workflow_changes : Bool
  pub allow_infrastructure_changes : Bool
  pub allow_migration_changes : Bool
  pub allow_security_sensitive_changes : Bool

pub data PathFault : Type 0 where
  absolute_path traversing_path git_metadata : PathFault

-- What is thrown: a path of the policy is itself unusable.
pub data PolicyError : Type 0 where
  absolute_policy_path traversing_policy_path : PolicyError

pub data Reason : Type 0 where
  too_many_files too_many_lines too_many_hunks too_many_bytes : Reason
  bad_path : PathFault → Reason
  out_of_scope path_denied type_not_approved is_binary new_file_denied deletion_denied
        generated_denied dependency_denied lockfile_denied workflow_denied infrastructure_denied
        migration_denied sensitive_denied :
      Text → Reason
  no_provenance : Text → ℕ → Reason

-- `/(^|\/)…/`: the test holds where a segment begins.
abbrev pub after_slash : (Text → Bool) → Text → Bool
after_slash test [] = false
after_slash test (c ∷ s) = c == 47 && test s || after_slash test s

abbrev pub at_segment : (Text → Bool) → Text → Bool
at_segment test s = test s || after_slash test s

abbrev pub some_prefix : List Text → Text → Bool
some_prefix prefixes s = any (starts_with s) prefixes

abbrev pub is_generated_path : Text → Bool
is_generated_path = at_segment (
    some_prefix (
      codes "dist/"
      ∷ codes "build/"
      ∷ codes "coverage/"
      ∷ codes ".next/"
      ∷ codes "generated/"
      ∷ codes "vendor/"
      ∷ []))

-- The tests ignore case. `permissions?` is met by `permission`.
abbrev pub is_security_sensitive_path : Text → Bool
is_security_sensitive_path path =
    at_segment
      (some_prefix (
        codes "auth"
        ∷ codes "security"
        ∷ codes "permission"
        ∷ codes "rbac"
        ∷ codes "iam"
        ∷ codes "middleware"
        ∷ codes ".env"
        ∷ []))
      (lower path)

abbrev pub ends_with : Text → Text → Bool
ends_with [] ending = [] == ending
ends_with (c ∷ s) ending = (c ∷ s) == ending || ends_with s ending

abbrev pub is_migration_path : Text → Bool
is_migration_path path =
    includes_text (lower path) (codes "migration/")
    || includes_text (lower path) (codes "migrations/")
    || ends_with (lower path) (codes "schema.prisma")

abbrev pub dependency_files : List Text
dependency_files =
    codes "package.json" ∷ codes "pyproject.toml" ∷ codes "go.mod" ∷ codes "Cargo.toml" ∷ []

abbrev pub lock_files : List Text
lock_files =
    codes "package-lock.json"
    ∷ codes "pnpm-lock.yaml"
    ∷ codes "yarn.lock"
    ∷ codes "bun.lockb"
    ∷ codes "poetry.lock"
    ∷ codes "Cargo.lock"
    ∷ codes "go.sum"
    ∷ []

abbrev pub infrastructure_files : List Text
infrastructure_files =
    codes "docker-compose.yml"
    ∷ codes "docker-compose.yaml"
    ∷ codes "Dockerfile"
    ∷ codes "terraform.tf"
    ∷ []

abbrev pub traverses : Text → Bool
traverses path = path == codes ".." || starts_with path (codes "../")

-- `replace(/\/$/, '')`
abbrev pub without_last_slash : Text → Text
without_last_slash [] = []
without_last_slash (c ∷ []) = if c == 47 then [] else c ∷ []
without_last_slash (c ∷ d ∷ s) = c ∷ without_last_slash (d ∷ s)

abbrev pub sum : List ℕ → ℕ
sum [] = 0
sum (n ∷ ns) = n + sum ns

abbrev pub push_if : Bool → Reason → List Reason
push_if true reason = reason ∷ []
push_if false reason = []

-- `newPath ?? oldPath ?? ''`
abbrev pub first_named : Option Text → Option Text → Text
first_named (some path) old = path
first_named none (some path) = path
first_named none none = []

abbrev pub path_of : PatchFile → Text
path_of file = first_named file.new_path file.old_path

abbrev pub is_add : ChangeType → Bool
is_add add = true
is_add _ = false

abbrev pub is_delete : ChangeType → Bool
is_delete delete = true
is_delete _ = false

abbrev pub has_none : List Reason → Bool
has_none [] = true
has_none (r ∷ rs) = false

module _ (p : PosixPath) where
  unfoldable pub normalize_path : Text → Result PathFault Text
  normalize_path value = do
    throw_if (is_absolute (to_slashes value) || has_drive (to_slashes value)) absolute_path
    let path = p.normalize (to_slashes value)
    throw_if (path == [] || path == codes "." || traverses path) traversing_path
    throw_if (path == codes ".git" || starts_with path (codes ".git/")) git_metadata
    ok path

  unfoldable pub matches_prefix : Text → Text → Result PolicyError Bool
  matches_prefix path candidate =
      let trimmed = without_last_slash (to_slashes candidate) in
      if trimmed == codes "." || trimmed == [] then ok true else do
        throw_if (is_absolute trimmed || has_drive trimmed) absolute_policy_path
        let prefix = p.normalize trimmed
        throw_if (prefix == [] || traverses prefix) traversing_policy_path
        ok (path == prefix || starts_with path (prefix ++ codes "/"))

  -- `some`, which stops at the first match.
  unfoldable pub matches_some : Text → List Text → Result PolicyError Bool
  unfolding matches_prefix
  matches_some path [] = ok false
  matches_some path (c ∷ cs) =
      let rest = matches_some path cs in
      matches_prefix path c >>= λ found. if found then ok true else rest

  abbrev pub extension : Text → Text
  extension path =
      if p.basename path == codes "Dockerfile"
      then codes ".dockerfile"
      else lower (p.extname (p.basename path))

  module _ (policy : RecoveryPolicy) where
    abbrev pub hunk_reasons : Text → List PatchHunk → List Reason
    hunk_reasons path [] = []
    hunk_reasons path (h ∷ hs) =
        push_if (ltb h.treatment_plan_step 1 || h.citations == 0) (no_provenance path h.sequence)
        ++ hunk_reasons path hs

    -- The reasons after the two tests of scope.
    abbrev pub content_reasons : Text → PatchFile → List Reason
    content_reasons path file =
        push_if (not (contains policy.allowed_extensions (extension path))) (type_not_approved path)
        ++ push_if file.binary (is_binary path)
        ++ push_if (is_add file.change_type && not policy.allow_new_files) (new_file_denied path)
        ++ push_if (is_delete file.change_type && not policy.allow_deleted_files)
            (deletion_denied path)
        ++ push_if ((file.generated || is_generated_path path) && not policy.allow_generated_files)
            (generated_denied path)
        ++ push_if
            (contains dependency_files (p.basename path) && not policy.allow_dependency_changes)
            (dependency_denied path)
        ++ push_if (contains lock_files (p.basename path) && not policy.allow_lockfile_changes)
            (lockfile_denied path)
        ++ push_if
            (starts_with path (codes ".github/workflows/") && not policy.allow_workflow_changes)
            (workflow_denied path)
        ++ push_if
            ((contains infrastructure_files (p.basename path) || starts_with path (codes "infra/"))
              && not policy.allow_infrastructure_changes)
            (infrastructure_denied path)
        ++ push_if (is_migration_path path && not policy.allow_migration_changes)
            (migration_denied path)
        ++ push_if
            ((file.sensitive || is_security_sensitive_path path)
              && not policy.allow_security_sensitive_changes)
            (sensitive_denied path)
        ++ hunk_reasons path file.hunks

    -- A path that cannot be normalized is the only reason for its file.
    unfoldable pub reasons_at : PatchFile → Result PathFault Text → Result PolicyError (List Reason)
    unfolding matches_some
    reasons_at file (err fault) = ok (bad_path fault ∷ [])
    reasons_at file (ok path) = do
      in_scope ← matches_some path policy.allowed_paths
      denied ← matches_some path policy.denied_paths
      ok (
          push_if (not in_scope) (out_of_scope path)
          ++ (push_if denied (path_denied path) ++ content_reasons path file))

    unfoldable pub file_reasons : PatchFile → Result PolicyError (List Reason)
    unfolding reasons_at normalize_path
    file_reasons file = reasons_at file (normalize_path (path_of file))

    unfoldable pub all_reasons : List PatchFile → Result PolicyError (List Reason)
    unfolding file_reasons
    all_reasons [] = ok []
    all_reasons (file ∷ files) =
        let rest = all_reasons files in
        file_reasons file >>= λ here. rest >>= λ later. ok (here ++ later)

    abbrev pub changed_lines : List PatchFile → ℕ
    changed_lines files = sum (map (λ (f : PatchFile). f.added_lines + f.deleted_lines) files)

    abbrev pub hunk_count : List PatchFile → ℕ
    hunk_count files = sum (map (λ (f : PatchFile). length f.hunks) files)

    abbrev pub budget_reasons : List PatchFile → ℕ → List Reason
    budget_reasons files patch_bytes =
        push_if (ltb policy.maximum_changed_files (length files)) too_many_files
        ++ (push_if (ltb policy.maximum_changed_lines (changed_lines files)) too_many_lines
            ++ (push_if (ltb policy.maximum_patch_hunks (hunk_count files)) too_many_hunks
                ++ push_if (ltb policy.maximum_patch_bytes patch_bytes) too_many_bytes))

    -- The reasons before repeated ones are dropped; none means that the patch is allowed.
    unfoldable pub evaluate_patch_policy :
        List PatchFile → ℕ → Result PolicyError (Bool × List Reason)
    unfolding all_reasons
    evaluate_patch_policy files patch_bytes = do
      found ← all_reasons files
      ok (
        has_none (budget_reasons files patch_bytes ++ found),
        budget_reasons files patch_bytes ++ found,
      )
