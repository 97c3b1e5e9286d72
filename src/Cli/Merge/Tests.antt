-- ===== src/Cli/Merge/Tests.antt =====
-- The laws of the merges at small documents and a small project.
use battery_pack.Prelude.{
  ℕ, ◌≡◌, ◌∈◌, ◌⊎◌, inl, inr, refl, chars, text_eq, text_cmp, ends_with, any, ok,
}
use battery_pack.Prelude.{true, false, none, some, List, [], ◌∷◌, ◌++◌}
use battery_pack.Prelude.Map
use battery_pack.Cli.Toml.{Table, string, inline_table, table, nil, entry, get, insert}
use battery_pack.Cli.Deps.{Semver}
use battery_pack.Cli.Merge.{
  dep_sections, merge_toml_tables, merge_documents, merge_section, merge_sections, merge_rest,
}
use battery_pack.Cli.Merge.Tables.{combined, Distinct, at, get-merge_toml_tables}
use battery_pack.Cli.Merge.Documents.{first, merge_documents-keeps, merge_documents-panics}
use battery_pack.Cli.Merge.Apply.{
  RenderedFile, ApplyOpts, FileResult, readable, State, World, complete, done, undecided, skip_all,
  strategy_for, apply_file, apply_files, apply_rendered_files,
}
use battery_pack.Cli.Merge.Apply.Reports.{Reported, apply_file-Reported}
use battery_pack.Cli.Merge.Apply.Decided.{AllHeed, apply_files-AllHeed}
use battery_pack.Cli.Merge.Apply.Untouched.{IsSpared, apply_rendered_files-spares}

abbrev no_versions : Semver
no_versions = record { Version = ℕ; parse = λ v. none; greater = λ a b. false }

abbrev project : Table
project =
    entry (chars "package") (table (entry (chars "name") (string (chars "mine")) nil))
      (entry (chars "dependencies") (inline_table nil) nil)

abbrev template : Table
template =
    entry (chars "package")
      (table (
        entry (chars "name") (string (chars "theirs"))
          (entry (chars "edition") (string (chars "2024")) nil)))
      nil

abbrev template_with_deps : Table
template_with_deps =
    entry (chars "dependencies") (table (entry (chars "serde") (string (chars "1")) nil)) nil

distinct : Distinct template
unfolding get
distinct = (refl, tt)

get-merge_toml_tables_example :
    get (chars "package") (merge_toml_tables project template)
    ≡ combined (get (chars "package") project) (get (chars "package") template)
get-merge_toml_tables_example = get-merge_toml_tables project template distinct (chars "package")

abbrev merged : Table
merged =
    entry (chars "package")
      (table (
        entry (chars "name") (string (chars "mine"))
          (entry (chars "edition") (string (chars "2024")) nil)))
      (entry (chars "dependencies") (inline_table nil) nil)

merges : merge_documents no_versions project template ≡ some merged
unfolding merge_documents merge_sections merge_section merge_rest merge_toml_tables get insert
    text_eq text_cmp
merges = refl

outside :
    any (λ section. text_eq (first (chars "package" ∷ []) (chars "name")) section) dep_sections
    ≡ false
unfolding text_eq text_cmp
outside = refl

named : at (chars "package" ∷ []) (chars "name") project ≡ some (string (chars "mine"))
unfolding get text_eq text_cmp
named = refl

merge_documents-keeps_example :
    at (chars "package" ∷ []) (chars "name") merged ≡ some (string (chars "mine"))
merge_documents-keeps_example =
    merge_documents-keeps no_versions project template merged (chars "package" ∷ []) (chars "name")
      (string (chars "mine")) merges outside tt named

inline_dependencies : get (chars "dependencies") project ≡ some (inline_table nil)
unfolding get text_eq text_cmp
inline_dependencies = refl

from_template :
    get (chars "dependencies") template_with_deps
    ≡ some (table (entry (chars "serde") (string (chars "1")) nil))
unfolding get text_eq text_cmp
from_template = refl

merge_documents-panics_example : merge_documents no_versions project template_with_deps ≡ none
merge_documents-panics_example =
    merge_documents-panics no_versions template_with_deps project
      (entry (chars "serde") (string (chars "1")) nil) (chars "dependencies") (inline_table nil)
      (inl refl) from_template inline_dependencies tt

-- A project with one file, in a world where the template's text is the merge.
abbrev world : World
world = record {
  join = λ dir path. dir ++ (chars "/" ++ path);
  fs_write = λ path text. complete;
  open_in_editor = λ content path. ok content;
  merge_toml = λ existing content. some (ok content);
  merge_yaml = λ existing content. ok content;
}

abbrev readme : RenderedFile
readme = record { path = chars "R.md"; content = chars "new" }

abbrev manifest : RenderedFile
manifest = record { path = chars "C.toml"; content = chars "merged" }

abbrev files : List RenderedFile
files = readme ∷ manifest ∷ []

abbrev opts : ApplyOpts
opts = record { project_dir = chars "p"; overwrite = false; interactive = false }

abbrev asking : ApplyOpts
asking = record { project_dir = chars "p"; overwrite = false; interactive = true }

abbrev start : State
start = record {
  disk =
      (chars "p/C.toml", readable (chars "old")) ∷ (chars "p/R.md", readable (chars "mine")) ∷ [];
  keys = b'S' ∷ [];
  batch = undecided;
}

-- "Skip all" at the first file is the answer for the second too.
skip_all_run : apply_rendered_files world files asking start ≡ (
  done (FileResult.skipped (chars "R.md") ∷ FileResult.skipped (chars "C.toml") ∷ []),
  record { disk = start.disk; keys = []; batch = skip_all },
)
unfolding apply_rendered_files Map.get text_eq text_cmp ends_with
skip_all_run = refl

apply_file-Reported_example :
    Reported world
      (chars "R.md")
      (chars "new")
      (chars "p/R.md")
      start.disk
      (apply_file world asking readme start)
apply_file-Reported_example = apply_file-Reported world asking readme start

-- The user has skipped all files that follow.
abbrev skipping : State
skipping = record start { batch = skip_all }

apply_files-AllHeed_example : AllHeed asking skipping (apply_files world asking files skipping)
apply_files-AllHeed_example = apply_files-AllHeed world asking files skipping refl

safe :
    (file : RenderedFile)
    → file ∈ files
    → (text_eq (chars "p/R.md") (world.join opts.project_dir file.path) ≡ false)
      ⊎ IsSpared (readable (chars "mine")) file.path
unfolding text_eq text_cmp strategy_for ends_with
safe file (inl e) = rw e (inr refl)
safe file (inr (inl e)) = rw e (inl refl)
safe file (inr (inr m)) = elim m [ ]

mine : Map.get (chars "p/R.md") start.disk ≡ some (readable (chars "mine"))
unfolding Map.get text_eq text_cmp
mine = refl

apply_rendered_files-spares_example :
    Map.get (chars "p/R.md") (apply_rendered_files world files opts start).1.disk
    ≡ some (readable (chars "mine"))
apply_rendered_files-spares_example =
    apply_rendered_files-spares world files opts start (chars "p/R.md") (readable (chars "mine"))
      refl refl mine safe
