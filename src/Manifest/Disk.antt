-- ===== src/Manifest/Disk.antt =====
-- src/battery-pack/bphelper-manifest/src/lib.rs, `validate_on_disk`: the files of a battery pack. The
-- file system, below the root of the crate, is a parameter: what its calls return.
pub mod Errors
mod Tests
use battery_pack.Prelude.{
  ℕ, ◌+◌, leb, ltb, ◌==◌, Text, chars, text_eq, ends_with, length, for_each, any, Result, ok, err,
}
use battery_pack.Prelude.{
  Bool, true, false, not, ◌&&◌, ◌||◌, Option, none, some, List, [], ◌∷◌, ◌++◌, if◌then◌else◌,
  is_some,
}
use battery_pack.FeatureRef.{strip_prefix}
use battery_pack.Manifest.Types.{BatteryPackSpec, TemplateSpec}
use battery_pack.Manifest.Report.{ValidationReport, empty_report, error, warning}
use battery_pack.Manifest.Check.{when}

-- An entry of a directory listing, and one of a walk over a template, with its path below the root.
pub record DirEntry : Type 0 where
  pub name : Text
  pub is_file : Bool

pub record WalkEntry : Type 0 where
  pub file_name : Text
  pub is_file : Bool
  pub relative_path : Text

-- A failed step of the walk carries what it displays.
pub record Disk : Type 0 where
  pub lib_rs : Option Text
  pub src_dir : Option (List DirEntry)
  pub is_dir : Text → Bool
  pub walk : Text → List (Result WalkEntry Text)

-- `char::is_whitespace`
abbrev is_whitespace : ℕ → Bool
is_whitespace c =
    leb 9 c && leb c 13
    || (any (λ w. w == c) (32 ∷ 133 ∷ 160 ∷ 5760 ∷ 8232 ∷ 8233 ∷ 8239 ∷ 8287 ∷ 12288 ∷ [])
        || leb 8192 c && leb c 8202)

abbrev drop_spaces : Text → Text
drop_spaces [] = []
drop_spaces (c ∷ s) = let rest = drop_spaces s in if is_whitespace c then rest else c ∷ s

abbrev reverse_onto : Text → Text → Text
reverse_onto [] acc = acc
reverse_onto (c ∷ s) acc = reverse_onto s (c ∷ acc)

abbrev reverse : Text → Text
reverse s = reverse_onto s []

-- `str::trim`
unfoldable pub trim : Text → Text
trim s = reverse (drop_spaces (reverse (drop_spaces s)))

abbrev add_char : ℕ → List Text → List Text
add_char c [] = (c ∷ []) ∷ []
add_char c (l ∷ ls) = (c ∷ l) ∷ ls

-- `str::lines`, with a carriage return left at the end of a line, which `trim` takes off.
unfoldable pub lines : Text → List Text
lines [] = []
lines (c ∷ s) = let rest = lines s in if c == 10 then [] ∷ rest else add_char c rest

unfoldable pub starts_with : Text → Text → Bool
starts_with prefix s = is_some (strip_prefix prefix s)

abbrev null : Text → Bool
null [] = true
null (c ∷ s) = false

-- A line without code, once trimmed.
unfoldable pub is_documentation : Text → Bool
is_documentation trimmed =
    null trimmed
    || (starts_with (chars "//") trimmed
        || (starts_with (chars "#!") trimmed
            || (starts_with (chars "include!") trimmed
                || starts_with (chars "include_str!") trimmed)))

unfoldable pub check_lines : List Text → ValidationReport → ValidationReport
unfolding is_documentation
check_lines [] report = report
check_lines (line ∷ rest) report =
    let later = check_lines rest report in
    if is_documentation (trim line)
    then later
    else warning (chars "format.crate.lib")
        (chars "src/lib.rs contains code beyond doc-comments and includes: " ++ trim line) report

unfoldable pub validate_lib_rs : Disk → ValidationReport → ValidationReport
unfolding check_lines
validate_lib_rs disk report = elim disk.lib_rs [
  | none ↦ report
  | some content ↦ check_lines (lines content) report
]

-- `Path::extension` is `rs`: there is a name before the last dot.
abbrev has_rs_extension : Text → Bool
has_rs_extension name = ends_with (chars ".rs") name && ltb 3 (length name)

unfoldable pub is_extra_code : DirEntry → Bool
is_extra_code entry =
    entry.is_file && (has_rs_extension entry.name && not (text_eq entry.name (chars "lib.rs")))

unfoldable pub check_entry : DirEntry → ValidationReport → ValidationReport
unfolding is_extra_code
check_entry entry = when (is_extra_code entry) (
    error (chars "format.crate.no-code") (
      chars "src/ contains '"
      ++ (entry.name ++ chars "' — battery packs must not contain functional code")))

unfoldable pub validate_no_extra_code : Disk → ValidationReport → ValidationReport
unfolding check_entry
validate_no_extra_code disk report = elim disk.src_dir [
  | none ↦ report
  | some entries ↦ for_each check_entry entries report
]

abbrev pub is_cargo_toml : WalkEntry → Bool
is_cargo_toml entry = entry.is_file && text_eq entry.file_name (chars "Cargo.toml")

unfoldable pub check_walked : Text → Result WalkEntry Text → ValidationReport → ValidationReport
check_walked name (err e) report =
    error (chars "format.templates.walk")
      (chars "failed to walk template '" ++ (name ++ (chars "': " ++ e))) report
check_walked name (ok entry) report =
    when (is_cargo_toml entry)
      (error (chars "format.templates.cargo-toml") (
        entry.relative_path
        ++ chars
            " will be excluded from the published crate. Rename to _Cargo.toml (the template engine maps it back automatically)."))
      report

unfoldable pub check_template_dir : Disk → Text × TemplateSpec → ValidationReport → ValidationReport
unfolding check_walked
check_template_dir disk (name, template) report =
    if disk.is_dir template.path
    then for_each (check_walked name) (disk.walk template.path) report
    else error (chars "format.templates.directory")
        (chars "template '"
          ++ (name ++ (chars "' path '" ++ (template.path ++ chars "' does not exist"))))
        report

unfoldable pub validate_templates_on_disk :
    BatteryPackSpec → Disk → ValidationReport → ValidationReport
unfolding check_template_dir
validate_templates_on_disk spec disk report =
    for_each (check_template_dir disk) spec.templates report

unfoldable pub validate_on_disk : BatteryPackSpec → Disk → ValidationReport
unfolding validate_lib_rs validate_no_extra_code validate_templates_on_disk
validate_on_disk spec disk =
    validate_templates_on_disk spec disk
      (validate_no_extra_code disk (validate_lib_rs disk empty_report))
