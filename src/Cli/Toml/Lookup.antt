-- ===== src/Cli/Toml/Lookup.antt =====
-- Looking up what is inserted and removed.
use battery_pack.Prelude.{
  ◌≡◌, refl, inl, inr, Text, text_eq, text_eq_iff, text_eq_refl, Bool-cases, true, none, some, List,
  [], ◌∷◌, ap, arith, if◌then◌else◌,
}
use battery_pack.Cli.Toml.{Item, Table, nil, entry, get, insert, remove, strings, to_array}

pub get-insert :
    (k j : Text) (v : Item) (t : Table)
    → get j (insert k v t) ≡ (if text_eq j k then some v else get j t)
unfolding get insert
get-insert k j v nil = refl
get-insert k j v (entry i w t) = elim (Bool-cases (text_eq k i)) [
  | inl same ↦ rw (same, insert) (ground (arith, text_eq_iff k i, text_eq_iff j i, text_eq_iff j k))
  | inr other ↦
      rw (other, insert)
        (ground (arith, get-insert k j v t, text_eq_iff k i, text_eq_iff j i, text_eq_iff j k))
]

pub get-insert_same : (k : Text) (v : Item) (t : Table) → get k (insert k v t) ≡ some v
get-insert_same k v t = ground (arith, get-insert k k v t, text_eq_refl k)

pub get-remove :
    (k j : Text) (t : Table) → get j (remove k t) ≡ (if text_eq j k then none else get j t)
unfolding get remove
get-remove k j nil = ground arith
get-remove k j (entry i w t) =
    ground (arith, get-remove k j t, text_eq_iff k i, text_eq_iff j i, text_eq_iff j k)

-- Putting an entry's own value back changes nothing.
pub insert-get : (k : Text) (v : Item) (t : Table) → get k t ≡ some v → insert k v t ≡ t
unfolding get insert
insert-get k v nil e = cc e
insert-get k v (entry j w t) e = elim (Bool-cases (text_eq k j)) [
  | inl same ↦ rw (same, insert) (put same (rw same at e))
  | inr other ↦
      rw (other, insert) (ap (λ (r : Table). entry j w r) (insert-get k v t (rw other at e)))
]
  where
    put : text_eq k j ≡ true → some w ≡ some v → entry j v t ≡ entry j w t
    put same q = cc q

pub insert-insert : (k : Text) (v w : Item) (t : Table) → insert k v (insert k w t) ≡ insert k v t
unfolding insert
insert-insert k v w nil = rw (text_eq_refl k) refl
insert-insert k v w (entry j u t) = elim (Bool-cases (text_eq k j)) [
  | inl same ↦ rw (same, insert) (rw same refl)
  | inr other ↦
      rw (other, insert) (rw other (ap (λ (r : Table). entry j u r) (insert-insert k v w t)))
]

pub strings-to_array : (ss : List Text) → strings (to_array ss) ≡ ss
strings-to_array [] = refl
strings-to_array (s ∷ ss) = ap (λ (r : List Text). s ∷ r) (strings-to_array ss)
