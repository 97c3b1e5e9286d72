-- ===== src/Cli/Merge/Documents.antt =====
-- The merge of two documents: what it keeps, and where it panics.
use battery_pack.Prelude.{
  ◌≡◌, refl, sym, ◌∙◌, ap, subst, inl, inr, ◌∈◌, arith, Bool-cases, Option-cases, Text, text_eq,
  text_eq_iff, any,
}
use battery_pack.Prelude.{false, Option, none, some, List, [], ◌∷◌, is_some}
use battery_pack.Cli.Toml.{
  Item, Table, string, boolean, array, inline_table, table, other_item, nil, entry, get,
}
use battery_pack.Cli.Deps.{Semver, ensure_section}
use battery_pack.Cli.Merge.{
  ◌>>=◌, sync_into, merge_section_of, dep_sections, merge_section, merge_sections, merge_rest,
  merge_documents, merge_toml_tables,
}
use battery_pack.Cli.Merge.Tables.{
  IsLeaf, at, at_cong, Keeps, get-insert_other, merge_toml_tables-Keeps,
}

-- The first key of a path.
abbrev pub first : List Text → Text → Text
first [] k = k
first (j ∷ path) k = j

at-first :
    (path : List Text) (k : Text) (t t' : Table)
    → get (first path k) t' ≡ get (first path k) t
    → at path k t' ≡ at path k t
at-first [] k t t' e = e
at-first (j ∷ path) k t t' e = at_cong j path k e

get-ensure_section :
    (section i : Text) (doc : Table)
    → text_eq i section ≡ false
    → get i (ensure_section section doc) ≡ get i doc
unfolding ensure_section
get-ensure_section section i doc other = elim (Bool-cases (is_some (get section doc))) [
  | inl there ↦ rw there refl
  | inr absent ↦ rw absent (get-insert_other section i (table nil) doc other)
]

merge_rest-Keeps : (doc template : Table) → Keeps doc (merge_rest doc template)
unfolding merge_rest
merge_rest-Keeps doc nil path k v leaf e = e
merge_rest-Keeps doc (entry j x rest) path k v leaf e =
    elim (Bool-cases (any (λ section. text_eq section j) dep_sections)) [
      | inl skipped ↦ rw skipped (merge_rest-Keeps doc rest path k v leaf e)
      | inr merged ↦ rw merged (
          merge_rest-Keeps (merge_toml_tables doc (entry j x nil)) rest path k v leaf
            (merge_toml_tables-Keeps (entry j x nil) doc path k v leaf e))
    ]

-- Not a standard table, which an inline table is not either.
abbrev pub IsNoTable : Option Item → Type 0
IsNoTable (some v) = IsLeaf v
IsNoTable none = IsLeaf (table nil)

module _ (semver : Semver) where
  get-sync_into :
      (section i : Text) (source : Table) (o : Option Item) (doc : Table) {doc' : Table}
      → text_eq i section ≡ false
      → sync_into semver section source o doc ≡ some doc'
      → get i doc' ≡ get i doc
  get-sync_into section i source (some (table target)) doc other e =
      ap (λ (d : Table). get i d) (sym (some_inj e)) ∙ get-insert_other section i _ doc other
    where
      some_inj : {a b : Table} → some a ≡ some b → a ≡ b
      some_inj q = cc q
  get-sync_into section i source none doc other e = cc e
  get-sync_into section i source (some (string x)) doc other e = cc e
  get-sync_into section i source (some (boolean x)) doc other e = cc e
  get-sync_into section i source (some (array x)) doc other e = cc e
  get-sync_into section i source (some (inline_table x)) doc other e = cc e
  get-sync_into section i source (some (other_item x)) doc other e = cc e

  get-merge_section_of :
      (section i : Text) (o : Option Item) (doc : Table) {doc' : Table}
      → text_eq i section ≡ false
      → merge_section_of semver section o doc ≡ some doc'
      → get i doc' ≡ get i doc
  get-merge_section_of section i (some (table source)) doc other e =
      get-sync_into section i source _ _ other e ∙ get-ensure_section section i doc other
  get-merge_section_of section i none doc other e = cc e
  get-merge_section_of section i (some (string x)) doc other e = cc e
  get-merge_section_of section i (some (boolean x)) doc other e = cc e
  get-merge_section_of section i (some (array x)) doc other e = cc e
  get-merge_section_of section i (some (inline_table x)) doc other e = cc e
  get-merge_section_of section i (some (other_item x)) doc other e = cc e

  get-merge_section :
      (template : Table) (section i : Text) (doc : Table) {doc' : Table}
      → text_eq i section ≡ false
      → merge_section semver template section doc ≡ some doc'
      → get i doc' ≡ get i doc
  unfolding merge_section
  get-merge_section template section i doc other e =
      get-merge_section_of section i (get section template) doc other e

  get-merge_sections :
      (template : Table) (sections : List Text) (i : Text) (doc : Table) {doc' : Table}
      → any (λ section. text_eq i section) sections ≡ false
      → merge_sections semver template sections doc ≡ some doc'
      → get i doc' ≡ get i doc
  unfolding merge_sections
  get-merge_sections template [] i doc other e = cc e
  get-merge_sections template (section ∷ sections) i doc {doc'} other e =
      elim (Option-cases (merge_section semver template section doc)) [
        | inl panics ↦ absurd (
            cc (e, ap (λ (o : Option Table). o >>= merge_sections semver template sections) panics))
        | inr (d, q) ↦
            get-merge_sections template sections i d (ground arith)
              (sym (ap (λ (o : Option Table). o >>= merge_sections semver template sections) q) ∙ e)
            ∙ get-merge_section template section i doc (ground arith) q
      ]

  at-merge_documents :
      (doc template out : Table) (path : List Text) (k : Text) (v : Item)
      → any (λ section. text_eq (first path k) section) dep_sections ≡ false
      → IsLeaf v
      → at path k doc ≡ some v
      → (o : Option Table) → merge_sections semver template dep_sections doc ≡ o
      → (o >>= λ d. some (merge_rest d template)) ≡ some out
      → at path k out ≡ some v
  at-merge_documents doc template out path k v outside leaf e none q h = cc h
  at-merge_documents doc template out path k v outside leaf e (some d) q h =
      ap (λ (t : Table). at path k t) (the_result h)
      ∙ merge_rest-Keeps d template path k v leaf (
          at-first path k doc d
            (get-merge_sections template dep_sections (first path k) doc outside q)
          ∙ e)
    where
      the_result : some (merge_rest d template) ≡ some out → out ≡ merge_rest d template
      the_result h = cc h

  -- Outside the dependency sections a merge of documents that succeeds keeps every value of the
  -- project's document that is no table, at its path.
  pub merge_documents-keeps :
      (doc template out : Table) (path : List Text) (k : Text) (v : Item)
      → merge_documents semver doc template ≡ some out
      → any (λ section. text_eq (first path k) section) dep_sections ≡ false
      → IsLeaf v
      → at path k doc ≡ some v
      → at path k out ≡ some v
  unfolding merge_documents
  merge_documents-keeps doc template out path k v h outside leaf e =
      at-merge_documents doc template out path k v outside leaf e _ refl h

  sync_into-panics :
      (section : Text) (source : Table) (o : Option Item) (doc : Table)
      → IsNoTable o
      → sync_into semver section source o doc ≡ none
  sync_into-panics section source none doc h = refl
  sync_into-panics section source (some (string x)) doc h = refl
  sync_into-panics section source (some (boolean x)) doc h = refl
  sync_into-panics section source (some (array x)) doc h = refl
  sync_into-panics section source (some (inline_table x)) doc h = refl
  sync_into-panics section source (some (other_item x)) doc h = refl
  sync_into-panics section source (some (table x)) doc h = absurd h

  merge_section-panics :
      (template doc source : Table) (section : Text) (v : Item)
      → get section template ≡ some (table source)
      → get section doc ≡ some v
      → IsLeaf v
      → merge_section semver template section doc ≡ none
  unfolding merge_section ensure_section
  merge_section-panics template doc source section v from there leaf =
      rw (from, there) (rw there (sync_into-panics section source (some v) doc leaf))

  merge_sections-panics :
      (template : Table) (sections : List Text) (doc source : Table) (section : Text) (v : Item)
      → section ∈ sections
      → get section template ≡ some (table source)
      → get section doc ≡ some v
      → IsLeaf v
      → merge_sections semver template sections doc ≡ none
  unfolding merge_sections
  merge_sections-panics template [] doc source section v among from there leaf = absurd among
  merge_sections-panics template (s ∷ sections) doc source section v (inl same) from there leaf =
      let panics : merge_section semver template s doc ≡ none =
        subst (λ (x : Text). merge_section semver template x doc ≡ none) (same)
          (merge_section-panics template doc source section v from there leaf) in
      rw panics refl
  merge_sections-panics template (s ∷ sections) doc source section v (inr among) from there leaf =
      elim (Option-cases (merge_section semver template s doc)) [
        | inl panics ↦ rw panics refl
        | inr (d, q) ↦ elim (Bool-cases (text_eq section s)) [
          | inl same ↦
              let panics : merge_section semver template s doc ≡ none =
                subst (λ (x : Text). merge_section semver template x doc ≡ none)
                  ((text_eq_iff section s).0 same)
                  (merge_section-panics template doc source section v from there leaf) in
              rw panics refl
          | inr other ↦ rw q (
              merge_sections-panics template sections d source section v among from
                (get-merge_section template s section doc other q ∙ there) leaf)
        ]
      ]

  -- Where the template has a dependency section as a table, and the project has a value there that
  -- is no standard table, such as `dependencies = { … }`, the merge panics.
  pub merge_documents-panics :
      (template doc source : Table) (section : Text) (v : Item)
      → section ∈ dep_sections
      → get section template ≡ some (table source)
      → get section doc ≡ some v
      → IsLeaf v
      → merge_documents semver doc template ≡ none
  unfolding merge_documents
  merge_documents-panics template doc source section v among from there leaf =
      rw (merge_sections-panics template dep_sections doc source section v among from there leaf)
        refl
