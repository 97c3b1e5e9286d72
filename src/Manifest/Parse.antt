-- ===== src/Manifest/Parse.antt =====
-- src/battery-pack/bphelper-manifest/src/lib.rs, `package_to_spec`: a battery pack from what
-- `cargo metadata` reports of a package. The package is the library's; the record has the fields
-- that are read. `metadata` is `none` for a null value, else what decoding it with serde gave. The
-- warning that is printed for a dependency of unknown kind is left out.
use battery_pack.Prelude.{Text, chars, text_eq, for_each, Result, ok, err}
use battery_pack.Prelude.{Bool, false, ◌&&◌, Option, none, some, List, [], ◌∷◌, if◌then◌else◌}
use battery_pack.Prelude.Set
use battery_pack.Prelude.Map
use battery_pack.Prelude.Map.{Map}
use battery_pack.FeatureRef
use battery_pack.FeatureRef.{FeatureRef, FeatureParseError, parse, strip_prefix, dep_prefix}
use battery_pack.Manifest.Types.{
  BatteryPackSpec, CrateSpec, ItemMeta, TemplateSpec, CategorySpec, DepKind, Error,
  feature_ref_parse, metadata_decode,
}
use battery_pack.Manifest.Validate.{valid_name}

-- `cargo_metadata::DependencyKind`
pub data DependencyKind : Type 0 where
  normal development build unknown : DependencyKind

-- `cargo_metadata::Dependency`
pub record Dependency : Type 0 where
  pub name : Text
  pub req : Text
  pub kind : DependencyKind
  pub optional : Bool
  pub features : List Text

pub record RawTemplateSpec : Type 0 where
  pub path : Text
  pub description : Option Text
  pub categories : List Text

pub record RawBatteryPackMetadata : Type 0 where
  pub hidden : List Text
  pub categories : Map CategorySpec
  pub features : Map ItemMeta
  pub dependencies : Map ItemMeta

pub record RawBatteryMetadata : Type 0 where
  pub templates : Map RawTemplateSpec

pub record RawMetadata : Type 0 where
  pub battery_pack : Option RawBatteryPackMetadata
  pub battery : Option RawBatteryMetadata

-- `cargo_metadata::Package`
pub record Package : Type 0 where
  pub name : Text
  pub version : Text
  pub description : Option Text
  pub repository : Option Text
  pub keywords : List Text
  pub dependencies : List Dependency
  pub features : Map (List Text)
  pub metadata : Option (Result RawMetadata Text)

abbrev pub dep_kind_of : DependencyKind → Option DepKind
dep_kind_of normal = some DepKind.normal
dep_kind_of development = some DepKind.dev
dep_kind_of build = some DepKind.build
dep_kind_of unknown = none

-- The implicit caret of a requirement is taken off.
unfoldable pub plain_req : Text → Text
plain_req req = elim (strip_prefix (chars "^") req) [ some version ↦ version | none ↦ req ]

abbrev pub collect_set : List Text → List Text
collect_set xs = Set.extend [] xs

unfoldable pub add_dependency : Dependency → Map CrateSpec → Map CrateSpec
unfolding plain_req
add_dependency d crates = elim (dep_kind_of d.kind) [
  | none ↦ crates
  | some kind ↦
      Map.insert d.name
        (record {
          version = plain_req d.req;
          features = collect_set d.features;
          dep_kind = kind;
          optional = d.optional;
        })
        crates
]

unfoldable pub optional_dep_names : List Dependency → List Text
optional_dep_names [] = []
optional_dep_names (d ∷ ds) =
    let rest = optional_dep_names ds in if d.optional then Set.insert d.name rest else rest

-- `key = ["dep:key"]` for an optional dependency, which Cargo generates.
abbrev pub mirrors : Text → List Text → Bool
mirrors key [] = false
mirrors key (v ∷ []) = elim (strip_prefix dep_prefix v) [
  | none ↦ false
  | some stripped ↦ text_eq stripped key
]
mirrors key (v ∷ w ∷ vs) = false

unfoldable pub is_auto_optional : List Text → Text → List Text → Bool
is_auto_optional optional_names key value = Set.contains key optional_names && mirrors key value

-- The first entry that does not parse is the error.
unfoldable pub parse_refs : Text → List Text → List FeatureRef → Result (List FeatureRef) Error
parse_refs key [] refs = ok refs
parse_refs key (raw ∷ raws) refs = elim (parse raw) [
  | ok r ↦ parse_refs key raws (FeatureRef.insert r refs)
  | err source ↦ err (feature_ref_parse key raw source)
]

abbrev pub then_insert :
    Text
    → Result (List FeatureRef) Error
    → Map (List FeatureRef)
    → Result (Map (List FeatureRef)) Error
then_insert key (err e) features = err e
then_insert key (ok refs) features = ok (Map.insert key refs features)

infixl 5 ◌>>=◌
abbrev pub ◌>>=◌ : {A B : Type 0} → Result A Error → (A → Result B Error) → Result B Error
ok a >>= f = f a
err e >>= f = err e

unfoldable pub parse_features :
    List Text → Map (List Text) → Map (List FeatureRef) → Result (Map (List FeatureRef)) Error
unfolding is_auto_optional parse_refs
parse_features optional_names [] features = ok features
parse_features optional_names ((key, value) ∷ m) features = do
  features' ←
      (if is_auto_optional optional_names key value
        then ok features
        else then_insert key (parse_refs key value []) features)
  parse_features optional_names m features'

-- `raw_meta.and_then(|m| m.battery_pack).map(f).unwrap_or_default()`
abbrev pub from_pack : {A : Type 0} → (RawBatteryPackMetadata → A) → A → Option RawMetadata → A
from_pack f default none = default
from_pack f default (some meta) = elim meta.battery_pack [ none ↦ default | some raw ↦ f raw ]

unfoldable pub to_templates : Map RawTemplateSpec → Map TemplateSpec
to_templates [] = []
to_templates ((name, raw) ∷ m) =
    Map.insert name
      (record { path = raw.path; description = raw.description; categories = raw.categories })
      (to_templates m)

abbrev pub from_battery : Option RawMetadata → Map TemplateSpec
from_battery none = []
from_battery (some meta) = elim meta.battery [ none ↦ [] | some raw ↦ to_templates raw.templates ]

abbrev pub decoded : Text → Option (Result RawMetadata Text) → Result (Option RawMetadata) Error
decoded name none = ok none
decoded name (some (ok meta)) = ok (some meta)
decoded name (some (err source)) = err (metadata_decode name source)

abbrev pub or_empty : Option Text → Text
or_empty none = []
or_empty (some t) = t

unfoldable pub package_to_spec : Package → Result BatteryPackSpec Error
unfolding add_dependency optional_dep_names parse_features to_templates
package_to_spec pkg = do
  features ← parse_features (optional_dep_names pkg.dependencies) pkg.features []
  raw_meta ← decoded pkg.name pkg.metadata
  ok (record {
    name = pkg.name;
    version = pkg.version;
    description = or_empty pkg.description;
    repository = pkg.repository;
    keywords = pkg.keywords;
    crates = for_each add_dependency pkg.dependencies [];
    features = features;
    hidden = from_pack (λ raw. collect_set raw.hidden) [] raw_meta;
    templates = from_battery raw_meta;
    categories = from_pack (λ raw. raw.categories) [] raw_meta;
    feature_meta = from_pack (λ raw. raw.features) [] raw_meta;
    dep_meta = from_pack (λ raw. raw.dependencies) [] raw_meta;
  })

-- `discover_battery_packs` after the call of `cargo metadata`: the packages of the workspace whose
-- names are those of battery packs; the first that cannot be read is the error.
unfoldable pub discover : List Package → Result (List BatteryPackSpec) Error
unfolding package_to_spec
discover [] = ok []
discover (pkg ∷ pkgs) =
    let rest = discover pkgs in
    if valid_name pkg.name then (do s ← package_to_spec pkg; specs ← rest; ok (s ∷ specs)) else rest
