-- ===== src/Manifest/Types.antt =====
-- src/battery-pack/bphelper-manifest/src/lib.rs: the error type, the data of a battery pack, and the
-- conversion to `ActiveFeatures`.
use battery_pack.Prelude.{Text, chars, text_eq, any, Bool, Option, List, if◌then◌else◌}
use battery_pack.Prelude.Map.{Map}
use battery_pack.FeatureRef.{FeatureRef, FeatureParseError}

-- An error of a library carries what it displays.
pub data Error : Type 0 where
  toml : Text → Error
  missing_field : Text → Error
  invalid_name : Text → Error
  unknown_crate_in_feature : Text → Text → Error
  feature_ref_parse : Text → Text → FeatureParseError → Error
  feature_cycle : Text → Error
  io : Text → Text → Error
  metadata : Text → Error
  metadata_decode : Text → Text → Error

pub data DepKind : Type 0 where
  normal dev build : DepKind

pub record CrateSpec : Type 0 where
  pub version : Text
  pub features : List Text
  pub dep_kind : DepKind
  pub optional : Bool

pub data PickMode : Type 0 where
  any_number at_most_one : PickMode

pub record CategorySpec : Type 0 where
  pub title : Option Text
  pub description : Option Text
  pub pick : PickMode

pub record ItemMeta : Type 0 where
  pub categories : List Text
  pub description : Option Text

pub record TemplateSpec : Type 0 where
  pub path : Text
  pub description : Option Text
  pub categories : List Text

pub data ActiveFeatures : Type 0 where
  every : ActiveFeatures
  subset : List Text → ActiveFeatures

unfoldable pub from_set : List Text → ActiveFeatures
from_set value = if any (λ feat. text_eq feat (chars "all")) value then every else subset value

pub record BatteryPackSpec : Type 0 where
  pub name : Text
  pub version : Text
  pub description : Text
  pub repository : Option Text
  pub keywords : List Text
  pub crates : Map CrateSpec
  pub features : Map (List FeatureRef)
  pub hidden : List Text
  pub templates : Map TemplateSpec
  pub categories : Map CategorySpec
  pub feature_meta : Map ItemMeta
  pub dep_meta : Map ItemMeta
