-- ===== src/Cli/Deps/Sections.antt =====
-- The entries of the dependency sections after dependencies are removed.
use battery_pack.Prelude.{
  ◌≡◌, refl, sym, ◌∙◌, ap, inl, inr, arith, Bool-cases, Text, text_eq, text_eq_iff, any, for_each,
}
use battery_pack.Prelude.{
  Bool, true, false, ◌&&◌, Option, none, some, [], ◌∷◌, if◌then◌else◌, is_some,
}
use battery_pack.Prelude.Map.{Map}
use battery_pack.Manifest.Types.{CrateSpec}
use battery_pack.Cli.Toml.{
  Item, Table, string, boolean, array, inline_table, table, other_item, get, insert, remove,
}
use battery_pack.Cli.Toml.Lookup.{get-insert, get-insert_same, get-remove}
use battery_pack.Cli.Deps.{dep_kind_section, Written, take_from, remove_one, remove_deps_by_kind}

-- The entry with the key in a section, which is written as a table or inline.
abbrev pub in_section : Text → Option Item → Option Item
in_section k (some (table t)) = get k t
in_section k (some (inline_table t)) = get k t
in_section k _ = none

abbrev pub lookup : Text → Text → Table → Option Item
lookup section k doc = in_section k (get section doc)

-- The section is a standard table, as under the header `[dependencies]`.
abbrev pub is_standard : Option Item → Bool
is_standard (some (table t)) = true
is_standard _ = false

lookup-insert :
    (s section k : Text) (x : Item) (doc : Table)
    → lookup s k (insert section x doc)
      ≡ (if text_eq s section then in_section k (some x) else lookup s k doc)
lookup-insert s section k x doc =
    ap (in_section k) (get-insert section s x doc)
    ∙ elim (Bool-cases (text_eq s section)) [ inl e ↦ rw e refl | inr e ↦ rw e refl ]

-- The crate has the name, and the section is that of its kind.
abbrev pub names : Text → Text → Text × CrateSpec → Bool
names section k (name, spec) = text_eq k name && text_eq section (dep_kind_section spec.dep_kind)

is_some-false : (o : Option Item) → is_some o ≡ false → o ≡ none
is_some-false none e = refl
is_some-false (some x) e = cc e

lookup-elsewhere :
    (s section k name : Text) (o : Option Item) (w : Written)
    → text_eq s section ≡ false
    → lookup s k (take_from name section o w).doc ≡ lookup s k w.doc
lookup-elsewhere s section k name (some (table t)) w e = elim (Bool-cases (is_some (get name t))) [
  | inl there ↦ rw there (lookup-insert s section k (table (remove name t)) w.doc ∙ rw e refl)
  | inr absent ↦ rw absent refl
]
lookup-elsewhere s section k name none w e = refl
lookup-elsewhere s section k name (some (string x)) w e = refl
lookup-elsewhere s section k name (some (boolean x)) w e = refl
lookup-elsewhere s section k name (some (array x)) w e = refl
lookup-elsewhere s section k name (some (inline_table x)) w e = refl
lookup-elsewhere s section k name (some (other_item x)) w e = refl

lookup-here :
    (section k name : Text) (o : Option Item) (w : Written)
    → get section w.doc ≡ o
    → lookup section k (take_from name section o w).doc
      ≡ (if text_eq k name && is_standard o then none else in_section k o)
lookup-here section k name (some (table t)) w e = elim (Bool-cases (is_some (get name t))) [
  | inl there ↦ rw there (
      ap (in_section k) (get-insert_same section (table (remove name t)) w.doc)
      ∙ get-remove name k t
      ∙ ground arith)
  | inr absent ↦
      rw absent (ap (in_section k) e ∙ ground (arith, is_some-false (get name t) absent, at_name))
]
  where
    at_name : text_eq k name ≡ true → get k t ≡ get name t
    at_name q = ap (λ (x : Text). get x t) ((text_eq_iff k name).0 q)
lookup-here section k name none w e = ap (in_section k) e ∙ ground arith
lookup-here section k name (some (string x)) w e = ap (in_section k) e ∙ ground arith
lookup-here section k name (some (boolean x)) w e = ap (in_section k) e ∙ ground arith
lookup-here section k name (some (array x)) w e = ap (in_section k) e ∙ ground arith
lookup-here section k name (some (inline_table x)) w e = ap (in_section k) e ∙ ground arith
lookup-here section k name (some (other_item x)) w e = ap (in_section k) e ∙ ground arith

lookup-remove_one :
    (s k : Text) (c : Text × CrateSpec) (w : Written)
    → lookup s k (remove_one c w).doc
      ≡ (if names s k c && is_standard (get s w.doc) then none else lookup s k w.doc)
unfolding remove_one
lookup-remove_one s k (name, spec) w =
    elim (Bool-cases (text_eq s (dep_kind_section spec.dep_kind))) [
      | inl same ↦
          at (dep_kind_section spec.dep_kind)
            ((text_eq_iff s (dep_kind_section spec.dep_kind)).0 same) same
      | inr other ↦
          lookup-elsewhere s (dep_kind_section spec.dep_kind) k name _ w other
          ∙ rw other (ground arith)
    ]
  where
    at :
        (section : Text)
        → s ≡ section
        → text_eq s section ≡ true
        → lookup s k (take_from name section (get section w.doc) w).doc ≡ (
            if text_eq k name && text_eq s section && is_standard (get s w.doc)
            then none
            else lookup s k w.doc)
    at section e same =
        ap (λ (x : Text). lookup x k (take_from name section (get section w.doc) w).doc) e
        ∙ lookup-here section k name (get section w.doc) w refl
        ∙ ground (
          arith,
          ap (λ (x : Text). lookup x k w.doc) e,
          ap (λ (x : Text). is_standard (get x w.doc)) e,
        )

-- Removing entries of a section leaves it the kind of table that it is.
is_standard-take_from :
    (s name section : Text) (o : Option Item) (w : Written)
    → get section w.doc ≡ o
    → is_standard (get s (take_from name section o w).doc) ≡ is_standard (get s w.doc)
is_standard-take_from s name section (some (table t)) w e =
    elim (Bool-cases (is_some (get name t))) [
      | inl there ↦ rw there (
          ap is_standard (get-insert section s (table (remove name t)) w.doc)
          ∙ elim (Bool-cases (text_eq s section)) [
            | inl same ↦ rw same (
                sym (
                  ap (λ (x : Text). is_standard (get x w.doc)) ((text_eq_iff s section).0 same)
                  ∙ ap is_standard e))
            | inr other ↦ rw other refl
          ])
      | inr absent ↦ rw absent refl
    ]
is_standard-take_from s name section none w e = refl
is_standard-take_from s name section (some (string x)) w e = refl
is_standard-take_from s name section (some (boolean x)) w e = refl
is_standard-take_from s name section (some (array x)) w e = refl
is_standard-take_from s name section (some (inline_table x)) w e = refl
is_standard-take_from s name section (some (other_item x)) w e = refl

is_standard-remove_one :
    (s : Text) (c : Text × CrateSpec) (w : Written)
    → is_standard (get s (remove_one c w).doc) ≡ is_standard (get s w.doc)
unfolding remove_one
is_standard-remove_one s (name, spec) w =
    is_standard-take_from s name (dep_kind_section spec.dep_kind) _ w refl

lookup-remove_each :
    (s k : Text) (crates : Map CrateSpec) (w : Written)
    → lookup s k (for_each remove_one crates w).doc
      ≡ (if any (names s k) crates && is_standard (get s w.doc) then none else lookup s k w.doc)
lookup-remove_each s k [] w = refl
lookup-remove_each s k (c ∷ crates) w =
    lookup-remove_each s k crates (remove_one c w)
    ∙ ground (arith, lookup-remove_one s k c w, is_standard-remove_one s c w)

-- Removing the dependencies of a pack takes exactly them out of the sections of their kinds, where the
-- section is a standard table. A section that is written inline, as in `dependencies = { … }`, keeps
-- all of its entries.
pub lookup-remove_deps_by_kind :
    (doc : Table) (crates : Map CrateSpec) (s k : Text)
    → lookup s k (remove_deps_by_kind doc crates).doc
      ≡ (if any (names s k) crates && is_standard (get s doc) then none else lookup s k doc)
unfolding remove_deps_by_kind
lookup-remove_deps_by_kind doc crates s k =
    lookup-remove_each s k crates (record { doc = doc; count = 0 })
