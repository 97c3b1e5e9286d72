-- ===== src/Manifest/Disk/Errors.antt =====
-- Which battery packs `validate_on_disk` reports an error about.
use battery_pack.Prelude.{
  ◌≡◌, ◌≢◌, ◌⊎◌, ◌↔◌, ◌∈◌, ◌&&◌, ◌++◌, refl, sym, ◌∙◌, ap, chars, text_eq_iff, ends_with_iff, ltb,
  length, length-append, any_iff, and_iff, or_iff, not_iff, Text, List, [], ◌∷◌, any, Bool, true,
  false, not, ◌||◌, Option, none, some, Result, ok, err, arith, Bool-cases, inl, inr,
}
use battery_pack.Manifest.Types.{BatteryPackSpec, TemplateSpec}
use battery_pack.Manifest.Report.{
  ValidationReport, has_errors, has_errors-warning, has_errors-for_each,
}
use battery_pack.Manifest.Check.Errors.{has_errors-when-error}
use battery_pack.Manifest.Disk.{
  DirEntry, WalkEntry, Disk, trim, lines, is_documentation, check_lines, validate_lib_rs,
  has_rs_extension, is_extra_code, check_entry, validate_no_extra_code, is_cargo_toml, check_walked,
  check_template_dir, validate_templates_on_disk, validate_on_disk,
}

-- Code in `lib.rs` is a warning.
has_errors-check_lines :
    (ls : List Text) (r : ValidationReport) → has_errors (check_lines ls r) ≡ has_errors r
unfolding check_lines
has_errors-check_lines [] r = refl
has_errors-check_lines (l ∷ ls) r = elim (Bool-cases (is_documentation (trim l))) [
  | inl doc ↦ rw doc (has_errors-check_lines ls r)
  | inr code ↦ rw code (has_errors-warning _ _ r)
]

has_errors-validate_lib_rs :
    (lib_rs : Option Text) (disk : Disk) (r : ValidationReport)
    → disk.lib_rs ≡ lib_rs
    → has_errors (validate_lib_rs disk r) ≡ has_errors r
unfolding validate_lib_rs
has_errors-validate_lib_rs none disk r e = rw e
has_errors-validate_lib_rs (some content) disk r e = rw e (has_errors-check_lines (lines content) r)

-- The files of `src/`, as far as it can be listed, of which one is code beside `lib.rs`.
abbrev pub has_extra_code : Option (List DirEntry) → Bool
has_extra_code none = false
has_extra_code (some entries) = any is_extra_code entries

has_errors-check_entry :
    (entry : DirEntry) (r : ValidationReport)
    → has_errors (check_entry entry r) ≡ (has_errors r || is_extra_code entry)
unfolding check_entry
has_errors-check_entry entry r = has_errors-when-error (is_extra_code entry) _ _ r

has_errors-validate_no_extra_code :
    (src_dir : Option (List DirEntry)) (disk : Disk) (r : ValidationReport)
    → disk.src_dir ≡ src_dir
    → has_errors (validate_no_extra_code disk r) ≡ (has_errors r || has_extra_code src_dir)
unfolding validate_no_extra_code
has_errors-validate_no_extra_code none disk r e = rw e (ground arith)
has_errors-validate_no_extra_code (some entries) disk r e =
    rw e (has_errors-for_each check_entry is_extra_code has_errors-check_entry entries r)

-- A step of the walk that failed, or a `Cargo.toml`.
abbrev pub is_excluded : Result WalkEntry Text → Bool
is_excluded (err e) = true
is_excluded (ok entry) = is_cargo_toml entry

has_errors-check_walked :
    (name : Text) (w : Result WalkEntry Text) (r : ValidationReport)
    → has_errors (check_walked name w r) ≡ (has_errors r || is_excluded w)
unfolding check_walked
has_errors-check_walked name (err e) r = has_errors-when-error true _ _ r
has_errors-check_walked name (ok entry) r = has_errors-when-error (is_cargo_toml entry) _ _ r

-- A template that is no directory, or whose directory holds something that is not published.
abbrev pub is_unusable : Disk → Text × TemplateSpec → Bool
is_unusable disk (name, template) =
    not (disk.is_dir template.path) || any is_excluded (disk.walk template.path)

-- The source walks a template only if it is a directory.
has_errors-check_template_dir :
    (disk : Disk) (t : Text × TemplateSpec) (r : ValidationReport)
    → has_errors (check_template_dir disk t r) ≡ (has_errors r || is_unusable disk t)
unfolding check_template_dir
has_errors-check_template_dir disk (name, template) r =
    elim (Bool-cases (disk.is_dir template.path)) [
      | inl there ↦ rw there (
          has_errors-for_each (check_walked name) is_excluded (has_errors-check_walked name)
            (disk.walk template.path) r)
      | inr missing ↦ rw missing (has_errors-when-error true _ _ r)
    ]

has_errors-validate_on_disk :
    (spec : BatteryPackSpec) (disk : Disk)
    → has_errors (validate_on_disk spec disk)
      ≡ (has_extra_code disk.src_dir || any (is_unusable disk) spec.templates)
unfolding validate_on_disk validate_templates_on_disk has_errors
has_errors-validate_on_disk spec disk =
    rw
      (
        has_errors-for_each (check_template_dir disk) (is_unusable disk)
            (has_errors-check_template_dir disk) spec.templates,
        has_errors-validate_no_extra_code disk.src_dir disk _ refl,
        has_errors-validate_lib_rs disk.lib_rs disk _ refl,
      )
      (ground arith)

-- A file `<stem>.rs` that is not `lib.rs`.
abbrev pub IsExtraCode : DirEntry → Type 0
IsExtraCode entry =
    (entry.is_file ≡ true)
    × (((stem : Text) × (entry.name ≡ stem ++ chars ".rs") × (stem ≢ []))
        × (entry.name ≢ chars "lib.rs"))

-- `src/` can be listed and holds such a file.
abbrev pub HasExtraCode : Option (List DirEntry) → Type 0
HasExtraCode src_dir =
    (entries : List DirEntry) × (src_dir ≡ some entries)
    × ((entry : DirEntry) × (entry ∈ entries) × IsExtraCode entry)

-- A step of the walk that failed, or a file `Cargo.toml`.
abbrev pub IsExcluded : Result WalkEntry Text → Type 0
IsExcluded (err e) = Unit
IsExcluded (ok entry) = (entry.is_file ≡ true) × (entry.file_name ≡ chars "Cargo.toml")

-- A template that is no directory, or in which the walk meets such a thing.
abbrev pub IsUnusable : Disk → Text × TemplateSpec → Type 0
IsUnusable disk t =
    (¬ (disk.is_dir t.1.path ≡ true))
    ⊎ ((w : Result WalkEntry Text) × (w ∈ disk.walk t.1.path) × IsExcluded w)

has_rs_extension_iff :
    (name : Text)
    → (has_rs_extension name ≡ true) ↔ ((stem : Text) × (name ≡ stem ++ chars ".rs") × (stem ≢ []))
has_rs_extension_iff name = (
  λ h.
      let (ends, long) = and_eq_true _ _ h in
      let w = (ends_with_iff (chars ".rs") name).0 ends in
      (
        w.0,
        w.1,
        λ none_left. cc (
            sym long
            ∙ ap (λ (t : Text). ltb 3 (length t))
                (w.1 ∙ ap (λ (t : Text). t ++ chars ".rs") none_left)),
      ),
  λ w.
      let ends = (ends_with_iff (chars ".rs") name).1 (w.0, w.1) in
      rw (ends) (ap (λ (t : Text). ltb 3 (length t)) w.1 ∙ long_enough w.0 w.2),
)
  where
    and_eq_true : (a b : Bool) → (a && b) ≡ true → (a ≡ true) × (b ≡ true)
    and_eq_true a b h = ground arith

    long_enough : (stem : Text) → stem ≢ [] → ltb 3 (length (stem ++ chars ".rs")) ≡ true
    long_enough [] some_left = absurd (some_left refl)
    long_enough (c ∷ stem) some_left = ground (arith, length-append stem (chars ".rs"))

is_extra_code_iff : (entry : DirEntry) → (is_extra_code entry ≡ true) ↔ IsExtraCode entry
unfolding is_extra_code
is_extra_code_iff entry = and_iff _ _ ((λ e. e, λ e. e)) (
    and_iff _ _ (has_rs_extension_iff entry.name)
      (not_iff _ (text_eq_iff entry.name (chars "lib.rs"))))

has_extra_code_iff :
    (src_dir : Option (List DirEntry)) → (has_extra_code src_dir ≡ true) ↔ HasExtraCode src_dir
has_extra_code_iff none = (λ e. cc e, λ w. cc w.1)
has_extra_code_iff (some entries) = (
  λ e. (entries, refl, (any_iff is_extra_code _ is_extra_code_iff entries).0 e),
  λ w.
      let same : entries ≡ w.0 = cc w.1 in
      ap (any is_extra_code) same ∙ (any_iff is_extra_code _ is_extra_code_iff w.0).1 w.2,
)

is_excluded_iff : (w : Result WalkEntry Text) → (is_excluded w ≡ true) ↔ IsExcluded w
is_excluded_iff (err e) = (λ h. tt, λ h. refl)
is_excluded_iff (ok entry) =
    and_iff _ _ ((λ e. e, λ e. e)) (text_eq_iff entry.file_name (chars "Cargo.toml"))

is_unusable_iff :
    (disk : Disk) (t : Text × TemplateSpec) → (is_unusable disk t ≡ true) ↔ IsUnusable disk t
is_unusable_iff disk (name, template) =
    or_iff _ _ (not_iff (disk.is_dir template.path) ((λ e. e, λ e. e)))
      (any_iff is_excluded _ is_excluded_iff (disk.walk template.path))

-- `validate_on_disk` reports an error exactly if `src/` can be listed and holds a file `<stem>.rs` other
-- than `lib.rs`, with a stem that is not empty, or some template is no directory, or the walk through it
-- fails at some step or meets a file `Cargo.toml`.
pub validate_on_disk_iff :
    (spec : BatteryPackSpec) (disk : Disk)
    → (has_errors (validate_on_disk spec disk) ≡ true) ↔ (
        HasExtraCode disk.src_dir
        ⊎ ((t : Text × TemplateSpec) × (t ∈ spec.templates) × IsUnusable disk t))
validate_on_disk_iff spec disk = rw (has_errors-validate_on_disk spec disk) (
    or_iff _ _ (has_extra_code_iff disk.src_dir)
      (any_iff (is_unusable disk) _ (is_unusable_iff disk) spec.templates))
