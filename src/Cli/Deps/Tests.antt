-- ===== src/Cli/Deps/Tests.antt =====
-- The laws at small manifests, with versions that are numbers.
use battery_pack.Prelude.{ℕ, ltb, ◌≡◌, refl, arith, Text, chars, text_eq, text_cmp, any}
use battery_pack.Prelude.{true, false, ◌&&◌, Option, none, some, [], ◌∷◌, if◌then◌else◌}
use battery_pack.Prelude.Map.{Map}
use battery_pack.Manifest.Types.{CrateSpec, DepKind}
use battery_pack.Cli.Toml.{Table, string, array, inline_table, table, nil, entry, get, insert, text}
use battery_pack.Cli.Deps.{
  Semver, add_dep_to_table, write_deps_by_kind, remove_deps_by_kind, should_upgrade_version,
  parse_lenient, bumps, sync_dep_in_table,
}
use battery_pack.Cli.Deps.Idempotent.{sync_dep_in_table_again}
use battery_pack.Cli.Deps.Additive.{Extends, IsDependency, sync_dep_in_table-Extends}
use battery_pack.Cli.Deps.Sections.{lookup, names, is_standard, lookup-remove_deps_by_kind}

-- A version is read as its first digit.
abbrev first_digit : Text → Option ℕ
first_digit [] = none
first_digit (c ∷ s) = some c

abbrev by_digit : Semver
by_digit = record { Version = ℕ; parse = first_digit; greater = λ a b. ltb b a }

irreflexive : (v : ℕ) → ltb v v ≡ false
irreflexive v = ground arith

abbrev serde : CrateSpec
serde = record {
  version = chars "2";
  features = chars "derive" ∷ [];
  dep_kind = DepKind.normal;
  optional = false;
}

abbrev cc_spec : CrateSpec
cc_spec = record { version = chars "1"; features = []; dep_kind = DepKind.build; optional = false }

abbrev deps : Table
deps = entry (chars "serde") (string (chars "1")) (entry (chars "anyhow") (string (chars "1")) nil)

abbrev doc : Table
doc = entry (chars "dependencies") (table deps) nil

abbrev crates : Map CrateSpec
crates = (chars "cc", cc_spec) ∷ (chars "serde", serde) ∷ []

sync_dep_in_table_run : sync_dep_in_table by_digit (chars "serde") serde deps ≡ (
  entry
      (chars "serde")
      (inline_table (
        entry
          (chars "version")
          (string (chars "2"))
          (entry (chars "features") (array (text (chars "derive") ∷ [])) nil)))
      (entry (chars "anyhow") (string (chars "1")) nil),
  true,
)
unfolding sync_dep_in_table get insert should_upgrade_version parse_lenient text_eq text_cmp
    add_dep_to_table bumps
sync_dep_in_table_run = refl

sync_dep_in_table_again_example :
    sync_dep_in_table by_digit
      (chars "serde")
      serde
      (sync_dep_in_table by_digit (chars "serde") serde deps).0
    ≡ ((sync_dep_in_table by_digit (chars "serde") serde deps).0, false)
sync_dep_in_table_again_example =
    sync_dep_in_table_again by_digit irreflexive (chars "serde") serde deps

is_dependency : IsDependency (get (chars "serde") deps)
unfolding get text_eq text_cmp
is_dependency = tt

sync_dep_in_table-Extends_example :
    Extends by_digit serde
      (chars "serde")
      deps
      (sync_dep_in_table by_digit (chars "serde") serde deps).0
sync_dep_in_table-Extends_example =
    sync_dep_in_table-Extends by_digit (chars "serde") serde deps is_dependency

lookup-remove_deps_by_kind_example :
    lookup (chars "dependencies") (chars "serde") (remove_deps_by_kind doc crates).doc ≡ (
      if any (names (chars "dependencies") (chars "serde")) crates
        && is_standard (get (chars "dependencies") doc)
      then none
      else lookup (chars "dependencies") (chars "serde") doc)
lookup-remove_deps_by_kind_example =
    lookup-remove_deps_by_kind doc crates (chars "dependencies") (chars "serde")

write_deps_by_kind_run : write_deps_by_kind doc crates true ≡ record {
  doc = entry (chars "dependencies") (table deps) (
      entry (chars "build-dependencies") (table (entry (chars "cc") (string (chars "1")) nil)) nil);
  count = 1;
}
unfolding write_deps_by_kind get insert text_eq text_cmp
write_deps_by_kind_run = refl
