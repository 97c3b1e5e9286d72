-- ===== src/Cli/State/Present.antt =====
-- The dependencies that pruning takes as present.
use battery_pack.Prelude.{
  ◌≡◌, refl, sym, ◌∙◌, inl, inr, arith, Text, chars, any, any-witness, any-true, ◌∈◌, ◌⊎◌, ◌↔◌,
}
use battery_pack.Prelude.{Bool, true, Option, none, some, List, [], ◌∷◌}
use battery_pack.Prelude.Set
use battery_pack.Prelude.Set.{contains-extend}
use battery_pack.Cli.Toml.{
  Item, Table, string, boolean, array, inline_table, table, other_item, get,
}
use battery_pack.Cli.State.{keys}
use battery_pack.Cli.State.Files.{keys_of, present_deps}

-- The sections of the root of the manifest that hold dependencies.
abbrev pub dependency_sections : List Text
dependency_sections =
    chars "dependencies" ∷ chars "dev-dependencies" ∷ chars "build-dependencies" ∷ []

-- One of these sections, written as a table or inline, has the dependency.
pub record DependsOn (raw : Table) (d : Text) : Type 0 where
  pub section : Text
  pub is_section : section ∈ dependency_sections
  pub entries : Table
  pub found :
      (get section raw ≡ some (table entries)) ⊎ (get section raw ≡ some (inline_table entries))
  pub named : d ∈ keys entries

module _ (raw : Table) (d : Text) where
  abbrev has_key : Text → Bool
  has_key section = Set.contains d (keys_of (get section raw))

  mem-DependsOn :
      (section : Text) (o : Option Item)
      → section ∈ dependency_sections
      → get section raw ≡ o
      → d ∈ keys_of o
      → DependsOn raw d
  mem-DependsOn section (some (table t)) m e h = record {
    section = section;
    is_section = m;
    entries = t;
    found = inl e;
    named = h;
  }
  mem-DependsOn section (some (inline_table t)) m e h = record {
    section = section;
    is_section = m;
    entries = t;
    found = inr e;
    named = h;
  }
  mem-DependsOn section none m e h = absurd h
  mem-DependsOn section (some (string x)) m e h = absurd h
  mem-DependsOn section (some (boolean x)) m e h = absurd h
  mem-DependsOn section (some (array x)) m e h = absurd h
  mem-DependsOn section (some (other_item x)) m e h = absurd h

  has_key-DependsOn :
      (section : Text) → section ∈ dependency_sections → has_key section ≡ true → DependsOn raw d
  has_key-DependsOn section m h =
      mem-DependsOn section (get section raw) m refl
        (Set.mem-contains d (keys_of (get section raw)) h)

  DependsOn-has_key : (p : DependsOn raw d) → has_key p.section ≡ true
  DependsOn-has_key p = elim p.found [
    | inl e ↦ rw e (Set.contains-mem d (keys p.entries) p.named)
    | inr e ↦ rw e (Set.contains-mem d (keys p.entries) p.named)
  ]

  contains-present_deps : Set.contains d (present_deps raw) ≡ any has_key dependency_sections
  unfolding present_deps
  contains-present_deps =
      rw (contains-extend, contains-extend, contains-extend) (unfold Set.contains in ground arith)

  -- What pruning takes as present.
  pub present_deps_iff : (Set.contains d (present_deps raw) ≡ true) ↔ DependsOn raw d
  present_deps_iff = (
    λ h.
        let (section, m, has) =
          any-witness has_key dependency_sections (sym contains-present_deps ∙ h) in
        has_key-DependsOn section m has,
    λ p.
        contains-present_deps
        ∙ any-true has_key dependency_sections p.is_section (DependsOn-has_key p),
  )
