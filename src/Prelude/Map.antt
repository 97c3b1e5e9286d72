-- ===== src/Prelude/Map.antt =====
-- `BTreeMap<String, V>`: the entries in ascending order of their keys. The standard library keeps
-- the order; the laws below hold for any list.
use Prim.Native.Nat.{Ordering}
use mathlib.Core.Path.{◌≡◌, refl}
use mathlib.Core.Logic.{◌⊎◌, inl, inr}
use mathlib.Core.Bool.{Bool, false, true, ◌||◌}
use mathlib.Core.Option.{Option, none, some}
use mathlib.Core.List.{List, [], ◌∷◌}
use native.Mathlib.Omega.{arith}
use battery_pack.Prelude.Tests.{if◌then◌else◌, is_some, Ordering-cases, Bool-cases}
use battery_pack.Prelude.Lists.{◌∈◌}
use battery_pack.Prelude.Strings.{
  Text, text_eq_refl, text_eq-true, text_cmp, text_eq, text_eq_iff, text_cmp-eq, text_cmp-gt_ne,
}

abbrev pub Map {ℓ} : Type ℓ → Type ℓ
Map V = List (Text × V)

module _ {ℓ} {V : Type ℓ} where
  unfoldable pub get : Text → Map V → Option V
  get k [] = none
  get k ((j, v) ∷ m) = if text_eq k j then some v else get k m

  -- Replaces the value of a key that is there.
  unfoldable pub insert : Text → V → Map V → Map V
  insert k v [] = (k, v) ∷ []
  insert k v ((j, w) ∷ m) =
      let rest = insert k v m in
      elim (text_cmp k j) [
        | Ordering.lt ↦ (k, v) ∷ (j, w) ∷ m
        | Ordering.eq ↦ (k, v) ∷ m
        | Ordering.gt ↦ (j, w) ∷ rest
      ]

  unfoldable pub contains_key : Text → Map V → Bool
  contains_key k m = is_some (get k m)

  unfoldable pub keys : Map V → List Text
  keys [] = []
  keys ((k, v) ∷ m) = k ∷ keys m

  unfoldable pub values : Map V → List V
  values [] = []
  values ((k, v) ∷ m) = v ∷ values m

  -- `m.retain(|k, _| p(k))`
  unfoldable pub retain : (Text → Bool) → Map V → Map V
  retain p [] = []
  retain p ((k, v) ∷ m) = let rest = retain p m in if p k then (k, v) ∷ rest else rest

  pub get-insert :
      (k j : Text) (v : V) (m : Map V)
      → get j (insert k v m) ≡ (if text_eq j k then some v else get j m)
  unfolding get insert
  get-insert k j v [] = refl
  get-insert k j v ((i, w) ∷ m) = elim (Ordering-cases (text_cmp k i)) [
    | inl e ↦ rw (e, insert) refl
    | inr (inl e) ↦ rw (e, insert) (rw (text_cmp-eq k i e) (ground arith))
    | inr (inr e) ↦
        rw (e, insert)
          (ground
            (arith, get-insert k j v m, text_cmp-gt_ne k i e, text_eq_iff j i, text_eq_iff j k))
  ]

  -- What a lookup finds after an insertion: the new value, or what was there at another key.
  pub get-insert_cases :
      (k j : Text) (v : V) (m : Map V) (x : V)
      → get j (insert k v m) ≡ some x
      → (j ≡ k) × (v ≡ x) ⊎ (get j m ≡ some x)
  get-insert_cases k j v m x e = ground (arith, get-insert k j v m, text_eq_iff j k)

  pub get-insert_self : (k : Text) (v : V) (m : Map V) → get k (insert k v m) ≡ some v
  get-insert_self k v m = ground (arith, get-insert k k v m, text_eq_refl k)

  pub get-retain :
      (p : Text → Bool) (k : Text) (m : Map V)
      → get k (retain p m) ≡ (if p k then get k m else none)
  unfolding get retain
  get-retain p k [] = ground arith
  get-retain p k ((j, v) ∷ m) = ground (arith, get-retain p k m, text_eq_iff k j)

  pub contains_key-insert :
      (k j : Text) (v : V) (m : Map V)
      → contains_key j (insert k v m) ≡ (text_eq j k || contains_key j m)
  unfolding contains_key
  contains_key-insert k j v m = ground (arith, get-insert k j v m)

  pub get-mem_keys : (k : Text) (m : Map V) {v : V} → get k m ≡ some v → k ∈ keys m
  unfolding get keys
  get-mem_keys k [] e = cc
  get-mem_keys k ((j, w) ∷ m) e = elim (Bool-cases (text_eq k j)) [
    | inl same ↦ inl ((text_eq_iff k j).0 same)
    | inr other ↦ inr (get-mem_keys k m (rw other at e))
  ]

  pub contains_key-mem_keys : (k : Text) (m : Map V) → k ∈ keys m → contains_key k m ≡ true
  unfolding get keys contains_key
  contains_key-mem_keys k [] h = absurd h
  contains_key-mem_keys k ((j, v) ∷ m) (inl e) = rw (text_eq-true k j e)
  contains_key-mem_keys k ((j, v) ∷ m) (inr h) = ground (arith, contains_key-mem_keys k m h)

  pub get-contains_key : (k : Text) (m : Map V) {v : V} → get k m ≡ some v → contains_key k m ≡ true
  unfolding contains_key
  get-contains_key k m e = rw e

  pub contains_key-get :
      (k : Text) (m : Map V) → contains_key k m ≡ true → (v : V) × (get k m ≡ some v)
  unfolding contains_key
  contains_key-get k m e = ground arith

  pub mem_keys-contains_key : (k : Text) (m : Map V) → contains_key k m ≡ true → k ∈ keys m
  mem_keys-contains_key k m e = let (v, there) = contains_key-get k m e in get-mem_keys k m there

  pub contains_key-false : (k : Text) (m : Map V) → contains_key k m ≡ false → get k m ≡ none
  unfolding contains_key
  contains_key-false k m e = ground arith

  pub contains_key-false_of_none :
      (k : Text) (m : Map V) → get k m ≡ none → contains_key k m ≡ false
  unfolding contains_key
  contains_key-false_of_none k m e = rw e

module _ {V : Type 0} where
  pub mem-get : (k : Text) (m : Map V) (v : V) → get k m ≡ some v → (k, v) ∈ m
  unfolding get
  mem-get k [] v e = cc
  mem-get k ((j, w) ∷ m) v e = ground (arith, text_eq_iff k j, mem-get k m v)

  pub contains_key-mem : (k : Text) (v : V) (m : Map V) → (k, v) ∈ m → contains_key k m ≡ true
  unfolding get contains_key
  contains_key-mem k v [] h = absurd h
  contains_key-mem k v ((j, w) ∷ m) h = ground (arith, text_eq_iff k j, contains_key-mem k v m)
