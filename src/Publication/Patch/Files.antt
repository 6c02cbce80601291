-- ===== src/Publication/Patch/Files.antt =====
-- The files of a unified diff: the outer loop of `parseUnifiedDiffFiles` over the lines
-- (packages/publication/src/execution.ts). The fuel is the number of lines.
pub mod Enough
use coder_er.Base.{ℕ, zero, suc, List, [], ◌∷◌, Text, length, if◌then◌else◌, Result, ok, err, ◌>>=◌}
use coder_er.Publication.Patch.{ParsedFilePatch}
use coder_er.Publication.Patch.Hunks.{is_empty}
use coder_er.Publication.Patch.Sections.{SectionError, read_file}

pub data FilesError : Type 0 where
  no_changes out_of_fuel : FilesError
  bad_section : SectionError → FilesError

abbrev pub in_files {ℓ} : {A : Type ℓ} → Result SectionError A → Result FilesError A
in_files (ok a) = ok a
in_files (err e) = err (bad_section e)

unfoldable pub read_files : ℕ → List Text → Result FilesError (List ParsedFilePatch)
unfolding read_file
read_files fuel [] = ok []
read_files zero (l ∷ ls) = err out_of_fuel
read_files (suc fuel) (l ∷ ls) =
    let skipped = read_files fuel ls in
    let opened = in_files (read_file l ls) >>= λ found.
    read_files fuel found.1 >>= λ more. ok (found.0 ∷ more) in
    if is_empty l then skipped else opened

abbrev pub some_files : List ParsedFilePatch → Result FilesError (List ParsedFilePatch)
some_files [] = err no_changes
some_files (f ∷ fs) = ok (f ∷ fs)

unfoldable pub parse_unified_diff_files : List Text → Result FilesError (List ParsedFilePatch)
unfolding read_files
parse_unified_diff_files lines = read_files (length lines) lines >>= some_files
