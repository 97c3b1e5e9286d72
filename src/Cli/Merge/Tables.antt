-- ===== src/Cli/Merge/Tables.antt =====
-- What the recursive merge of two tables is, key by key, and along paths.
use battery_pack.Prelude.{
  ◌≡◌, refl, sym, ◌∙◌, ap, subst, inl, inr, arith, Bool-cases, Option-cases, Text, text_eq,
  text_eq_iff,
}
use battery_pack.Prelude.{true, false, Option, none, some, List, [], ◌∷◌, if◌then◌else◌, is_some}
use battery_pack.Cli.Toml.{
  Item, Table, string, boolean, array, inline_table, table, other_item, nil, entry, get, insert,
}
use battery_pack.Cli.Toml.Lookup.{get-insert}
use battery_pack.Cli.Merge.{add_missing, add_table, merge_toml_tables}

-- What stands at a key of the merge: the project's value, merged if both are tables, else the
-- template's.
abbrev pub combined : Option Item → Option Item → Option Item
combined none o = o
combined (some (table t)) (some (table s)) = some (table (merge_toml_tables t s))
combined (some x) o = some x

combined-none : (o : Option Item) → combined o none ≡ o
combined-none none = refl
combined-none (some (string x)) = refl
combined-none (some (boolean x)) = refl
combined-none (some (array x)) = refl
combined-none (some (inline_table x)) = refl
combined-none (some (table x)) = refl
combined-none (some (other_item x)) = refl

-- The value is no table.
abbrev pub IsLeaf : Item → Type 0
IsLeaf (table t) = ⊥
IsLeaf _ = Unit

combined-leaf :
    (o : Option Item) (v : Item)
    → IsLeaf v
    → combined o (some v) ≡ (if is_some o then o else some v)
combined-leaf none v h = refl
combined-leaf (some (string x)) v h = refl
combined-leaf (some (boolean x)) v h = refl
combined-leaf (some (array x)) v h = refl
combined-leaf (some (inline_table x)) v h = refl
combined-leaf (some (other_item x)) v h = refl
combined-leaf (some (table t)) (table s) h = absurd h
combined-leaf (some (table t)) (string x) h = refl
combined-leaf (some (table t)) (boolean x) h = refl
combined-leaf (some (table t)) (array x) h = refl
combined-leaf (some (table t)) (inline_table x) h = refl
combined-leaf (some (table t)) (other_item x) h = refl

-- One round: the value goes to its key alone.
get-add_missing :
    (k j : Text) (v : Item) (target : Table)
    → IsLeaf v
    → get j (add_missing k v target)
      ≡ (if text_eq j k then combined (get k target) (some v) else get j target)
get-add_missing k j v target h = elim (Bool-cases (is_some (get k target))) [
  | inl there ↦ rw there (elim (Bool-cases (text_eq j k)) [
    | inl same ↦ rw same (
        ap (λ (x : Text). get x target) ((text_eq_iff j k).0 same)
        ∙ sym (combined-leaf (get k target) v h ∙ rw there refl))
    | inr other ↦ rw other refl
  ])
  | inr absent ↦ rw absent (
      get-insert k j v target ∙ elim (Bool-cases (text_eq j k)) [
        | inl same ↦ rw same (sym (combined-leaf (get k target) v h ∙ rw absent refl))
        | inr other ↦ rw other refl
      ])
]

kept :
    (k j : Text) (o : Option Item) (target : Table)
    → get k target ≡ o
    → get j target ≡ (if text_eq j k then o else get j target)
kept k j o target e = elim (Bool-cases (text_eq j k)) [
  | inl same ↦ rw same (ap (λ (x : Text). get x target) ((text_eq_iff j k).0 same) ∙ e)
  | inr other ↦ rw other refl
]

get-add_table :
    (k j : Text) (s : Table) (o : Option Item) (target : Table)
    → get k target ≡ o
    → get j (add_table k s (λ t. merge_toml_tables t s) o target)
      ≡ (if text_eq j k then combined o (some (table s)) else get j target)
get-add_table k j s none target e = get-insert k j (table s) target
get-add_table k j s (some (table t)) target e =
    get-insert k j (table (merge_toml_tables t s)) target
get-add_table k j s (some (string x)) target e = kept k j (some (string x)) target e
get-add_table k j s (some (boolean x)) target e = kept k j (some (boolean x)) target e
get-add_table k j s (some (array x)) target e = kept k j (some (array x)) target e
get-add_table k j s (some (inline_table x)) target e = kept k j (some (inline_table x)) target e
get-add_table k j s (some (other_item x)) target e = kept k j (some (other_item x)) target e

-- No key stands twice.
abbrev pub Distinct : Table → Type 0
Distinct nil = Unit
Distinct (entry k v rest) = (get k rest ≡ none) × Distinct rest

-- One round, and the rest of the loop.
get-round :
    (k j : Text) (v : Item) (target next rest : Table)
    → get k rest ≡ none
    → get j next ≡ (if text_eq j k then combined (get k target) (some v) else get j target)
    → get j (merge_toml_tables next rest) ≡ combined (get j next) (get j rest)
    → get j (merge_toml_tables next rest) ≡ combined (get j target) (get j (entry k v rest))
unfolding get
get-round k j v target next rest fresh now later = elim (Bool-cases (text_eq j k)) [
  | inl same ↦
      let e = (text_eq_iff j k).0 same in
      rw same (
        later
        ∙ ap (λ (o : Option Item). combined (get j next) o)
            (ap (λ (x : Text). get x rest) e ∙ fresh)
        ∙ combined-none (get j next)
        ∙ now
        ∙ rw same (ap (λ (x : Text). combined (get x target) (some v)) (sym e)))
  | inr other ↦
      rw other (later ∙ ap (λ (o : Option Item). combined o (get j rest)) (now ∙ rw other refl))
]

-- The merge of two tables, the second with distinct keys, has at each key the value of the first, in
-- which the second's is merged if both are tables; where the first has none, that of the second.
pub get-merge_toml_tables :
    (target source : Table)
    → Distinct source
    → (k : Text) → get k (merge_toml_tables target source) ≡ combined (get k target) (get k source)
unfolding merge_toml_tables
get-merge_toml_tables target nil d j = sym (unfold get in combined-none (get j target))
get-merge_toml_tables target (entry k (table s) rest) d j =
    get-round k j (table s) target _ rest d.0 (get-add_table k j s (get k target) target refl) (
      get-merge_toml_tables (add_table k s (λ t. merge_toml_tables t s) (get k target) target) rest
        d.1 j)
get-merge_toml_tables target (entry k (string v) rest) d j =
    get-round k j (string v) target _ rest d.0 (get-add_missing k j (string v) target tt)
      (get-merge_toml_tables (add_missing k (string v) target) rest d.1 j)
get-merge_toml_tables target (entry k (boolean v) rest) d j =
    get-round k j (boolean v) target _ rest d.0 (get-add_missing k j (boolean v) target tt)
      (get-merge_toml_tables (add_missing k (boolean v) target) rest d.1 j)
get-merge_toml_tables target (entry k (array v) rest) d j =
    get-round k j (array v) target _ rest d.0 (get-add_missing k j (array v) target tt)
      (get-merge_toml_tables (add_missing k (array v) target) rest d.1 j)
get-merge_toml_tables target (entry k (inline_table v) rest) d j =
    get-round k j (inline_table v) target _ rest d.0
      (get-add_missing k j (inline_table v) target tt)
      (get-merge_toml_tables (add_missing k (inline_table v) target) rest d.1 j)
get-merge_toml_tables target (entry k (other_item v) rest) d j =
    get-round k j (other_item v) target _ rest d.0 (get-add_missing k j (other_item v) target tt)
      (get-merge_toml_tables (add_missing k (other_item v) target) rest d.1 j)

-- `table.k`
abbrev pub below : Option Item → Table
below (some (table t)) = t
below _ = nil

-- What stands at `k` below the tables of the path.
abbrev pub at : List Text → Text → Table → Option Item
at [] k t = get k t
at (j ∷ path) k t = at path k (below (get j t))

-- The first table has the value at the path; so has the second.
abbrev pub Keeps : Table → Table → Type 0
Keeps t t' =
    (path : List Text) (k : Text) (v : Item)
    → IsLeaf v
    → at path k t ≡ some v
    → at path k t' ≡ some v

at-empty : (path : List Text) (k : Text) → at path k nil ≡ none
unfolding get
at-empty [] k = refl
at-empty (j ∷ path) k = at-empty path k

-- What stands at a path depends on what stands at its first key.
pub at_cong :
    (i : Text) (path : List Text) (k : Text) {o o' : Option Item}
    → o ≡ o'
    → at path k (below o) ≡ at path k (below o')
at_cong i path k e = ap (λ (o : Option Item). at path k (below o)) e

pub get-insert_other :
    (k i : Text) (x : Item) (t : Table) → text_eq i k ≡ false → get i (insert k x t) ≡ get i t
get-insert_other k i x t other = get-insert k i x t ∙ rw other refl

get-insert_at :
    (k i : Text) (x : Item) (t : Table) → text_eq i k ≡ true → get i (insert k x t) ≡ some x
get-insert_at k i x t same = get-insert k i x t ∙ rw same refl

-- A key that is put into a table that lacks it changes no path.
Keeps-insert_new : (k : Text) (x : Item) (t : Table) → get k t ≡ none → Keeps t (insert k x t)
Keeps-insert_new k x t absent [] j v leaf e = get-insert k j x t ∙ ground (arith, e, same_key)
  where
    same_key : text_eq j k ≡ true → get j t ≡ none
    same_key q = ap (λ (y : Text). get y t) ((text_eq_iff j k).0 q) ∙ absent
Keeps-insert_new k x t absent (i ∷ path) j v leaf e = elim (Bool-cases (text_eq i k)) [
  | inl same ↦ absurd (
      cc (
        sym (at-empty path j)
        ∙ ap (λ (o : Option Item). at path j (below o))
            (sym (ap (λ (y : Text). get y t) ((text_eq_iff i k).0 same) ∙ absent))
        ∙ e))
  | inr other ↦ at_cong i path j (get-insert_other k i x t other) ∙ e
]

Keeps-add_missing : (k : Text) (x : Item) (t : Table) → Keeps t (add_missing k x t)
Keeps-add_missing k x t path j v leaf e = elim (Option-cases (get k t)) [
  | inl absent ↦ rw absent (Keeps-insert_new k x t absent path j v leaf e)
  | inr (y, there) ↦ rw there e
]

-- A subtable that keeps its values can be replaced.
abbrev NoLeaf : Option Item → Type 0
NoLeaf none = Unit
NoLeaf (some v) = ¬ IsLeaf v

Keeps-insert_table :
    (k : Text) (s s' t : Table)
    → get k t ≡ some (table s)
    → Keeps s s'
    → Keeps t (insert k (table s') t)
Keeps-insert_table k s s' t there h [] j v leaf e = elim (Bool-cases (text_eq j k)) [
  | inl same ↦ absurd (
      subst (λ (o : Option Item). NoLeaf o)
        (sym (ap (λ (y : Text). get y t) ((text_eq_iff j k).0 same) ∙ there) ∙ e) (λ l. l) leaf)
  | inr other ↦ get-insert_other k j (table s') t other ∙ e
]
Keeps-insert_table k s s' t there h (i ∷ path) j v leaf e = elim (Bool-cases (text_eq i k)) [
  | inl same ↦
      at_cong i path j (get-insert_at k i (table s') t same)
      ∙ h path j v leaf (
          ap (λ (o : Option Item). at path j (below o))
            (sym (ap (λ (y : Text). get y t) ((text_eq_iff i k).0 same) ∙ there))
          ∙ e)
  | inr other ↦ at_cong i path j (get-insert_other k i (table s') t other) ∙ e
]

Keeps-add_table :
    (k : Text) (s : Table) (o : Option Item) (t : Table)
    → get k t ≡ o
    → ((t' : Table) → Keeps t' (merge_toml_tables t' s))
    → Keeps t (add_table k s (λ t'. merge_toml_tables t' s) o t)
Keeps-add_table k s none t e h = Keeps-insert_new k (table s) t e
Keeps-add_table k s (some (table t')) t e h = Keeps-insert_table k t' _ t e (h t')
Keeps-add_table k s (some (string x)) t e h = λ path j v leaf q. q
Keeps-add_table k s (some (boolean x)) t e h = λ path j v leaf q. q
Keeps-add_table k s (some (array x)) t e h = λ path j v leaf q. q
Keeps-add_table k s (some (inline_table x)) t e h = λ path j v leaf q. q
Keeps-add_table k s (some (other_item x)) t e h = λ path j v leaf q. q

pub merge_toml_tables-Keeps :
    (source target : Table) → Keeps target (merge_toml_tables target source)
unfolding merge_toml_tables
merge_toml_tables-Keeps nil target path j v leaf e = e
merge_toml_tables-Keeps (entry k (table s) rest) target path j v leaf e =
    merge_toml_tables-Keeps rest _ path j v leaf
      (Keeps-add_table k s (get k target) target refl (merge_toml_tables-Keeps s) path j v leaf e)
merge_toml_tables-Keeps (entry k (string x) rest) target path j v leaf e =
    merge_toml_tables-Keeps rest _ path j v leaf
      (Keeps-add_missing k (string x) target path j v leaf e)
merge_toml_tables-Keeps (entry k (boolean x) rest) target path j v leaf e =
    merge_toml_tables-Keeps rest _ path j v leaf
      (Keeps-add_missing k (boolean x) target path j v leaf e)
merge_toml_tables-Keeps (entry k (array x) rest) target path j v leaf e =
    merge_toml_tables-Keeps rest _ path j v leaf
      (Keeps-add_missing k (array x) target path j v leaf e)
merge_toml_tables-Keeps (entry k (inline_table x) rest) target path j v leaf e =
    merge_toml_tables-Keeps rest _ path j v leaf
      (Keeps-add_missing k (inline_table x) target path j v leaf e)
merge_toml_tables-Keeps (entry k (other_item x) rest) target path j v leaf e =
    merge_toml_tables-Keeps rest _ path j v leaf
      (Keeps-add_missing k (other_item x) target path j v leaf e)
