-- ===== src/Manifest/Disk/Tests.antt =====
-- The files of an example pack, as an instance of the law.
use battery_pack.Prelude.{◌≡◌, ◌↔◌, ◌⊎◌, ◌∈◌, Text, chars, text_eq, [], ◌∷◌, true, none, some, ok}
use battery_pack.Manifest.Types.{BatteryPackSpec, TemplateSpec}
use battery_pack.Manifest.Example.{pack}
use battery_pack.Manifest.Report.{has_errors}
use battery_pack.Manifest.Disk.{Disk, validate_on_disk}
use battery_pack.Manifest.Disk.Errors.{HasExtraCode, IsUnusable, validate_on_disk_iff}

abbrev template : TemplateSpec
template = record { path = chars "templates/default"; description = none; categories = [] }

abbrev templated : BatteryPackSpec
templated = record pack { templates = (chars "default", template) ∷ [] }

-- A disk with a template that holds a `Cargo.toml`.
abbrev disk : Disk
disk = record {
  lib_rs = some (chars "//! docs");
  src_dir = some (record { name = chars "lib.rs"; is_file = true } ∷ []);
  is_dir = text_eq (chars "templates/default");
  walk = λ path.
      ok (record {
        file_name = chars "Cargo.toml";
        is_file = true;
        relative_path = chars "templates/default/Cargo.toml";
      })
      ∷ [];
}

validate_on_disk_iff_example : (has_errors (validate_on_disk templated disk) ≡ true) ↔ (
    HasExtraCode disk.src_dir
    ⊎ ((t : Text × TemplateSpec) × (t ∈ templated.templates) × IsUnusable disk t))
validate_on_disk_iff_example = validate_on_disk_iff templated disk
