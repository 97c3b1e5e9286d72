-- ===== src/Prelude/Members.antt =====
-- Tests of membership as what they say, and the elements of a list that pass a test, as far as two.
use Prim.Native.Nat.{suc, Ordering}
use mathlib.Core.Path.{◌≡◌, refl, sym, ap, ◌∙◌}
use mathlib.Core.Logic.{◌↔◌, ◌⊎◌, inl, inr}
use mathlib.Core.Bool.{Bool, true}
use mathlib.Core.List.{List, [], ◌∷◌}
use native.Mathlib.Omega.{arith}
use battery_pack.Prelude.Tests.{ltb, Bool-cases, or_iff}
use battery_pack.Prelude.Lists.{◌∈◌, length, any, filter, any_iff}
use battery_pack.Prelude.Strings.{Text, text_eq, text_eq_iff, text_cmp, sort, sorted_insert}
use battery_pack.Prelude.Set
use battery_pack.Prelude.Map
use battery_pack.Prelude.Map.{Map, keys, contains_key}

-- Two entries of the list satisfy the predicate.
abbrev pub Twice : {A : Type 0} → (A → Type 0) → List A → Type 0
Twice P [] = ⊥
Twice {A} P (x ∷ xs) = (P x × ((y : A) × (y ∈ xs) × P y)) ⊎ Twice P xs

pub mem_iff : (a : Text) (xs : List Text) → (any (λ x. text_eq x a) xs ≡ true) ↔ (a ∈ xs)
mem_iff a [] = (λ e. cc e, λ m. absurd m)
mem_iff a (x ∷ xs) = or_iff _ _ (same x) (mem_iff a xs)
  where
    same : (x : Text) → (text_eq x a ≡ true) ↔ (a ≡ x)
    same x = (λ e. sym ((text_eq_iff x a).0 e), λ e. (text_eq_iff x a).1 (sym e))

pub contains_iff : (a : Text) (xs : List Text) → (Set.contains a xs ≡ true) ↔ (a ∈ xs)
contains_iff a xs = (Set.mem-contains a xs, Set.contains-mem a xs)

pub contains_key_iff :
    {A : Type 0} (k : Text) (m : Map A) → (contains_key k m ≡ true) ↔ (k ∈ keys m)
contains_key_iff k m = (Map.mem_keys-contains_key k m, Map.contains_key-mem_keys k m)

module _ {A : Type 0} (p : A → Bool) (P : A → Type 0) (p_iff : (a : A) → (p a ≡ true) ↔ P a) where
  some_filtered : (xs : List A) → ltb 0 (length (filter p xs)) ≡ any p xs
  some_filtered [] = refl
  some_filtered (x ∷ xs) = elim (Bool-cases (p x)) [
    | inl e ↦ rw e (ground arith)
    | inr e ↦ rw e (some_filtered xs)
  ]

  -- Two elements are left exactly if two satisfy the predicate.
  pub two_iff : (xs : List A) → (ltb 1 (length (filter p xs)) ≡ true) ↔ Twice P xs
  two_iff [] = (λ e. cc e, λ t. absurd t)
  two_iff (x ∷ xs) = elim (Bool-cases (p x)) [
    | inl e ↦ (
      λ h.
          let one_more : any p xs ≡ true = sym (some_filtered xs) ∙ ground (arith, (rw e at h)) in
          inl ((p_iff x).0 e, (any_iff p P p_iff xs).0 one_more),
      λ t.
          let one_more : ltb 0 (length (filter p xs)) ≡ true = elim t [
            | inl w ↦ some_filtered xs ∙ (any_iff p P p_iff xs).1 w.1
            | inr later ↦ ground (arith, (two_iff xs).1 later)
          ] in
          rw e (ground arith),
    )
    | inr e ↦ (
      λ h. inr ((two_iff xs).0 (rw e at h)),
      λ t. elim t [
        | inl w ↦ absurd (cc (sym e ∙ (p_iff x).1 w.0))
        | inr later ↦ rw e ((two_iff xs).1 later)
      ],
    )
  ]

length-sorted_insert : (x : Text) (xs : List Text) → length (sorted_insert x xs) ≡ suc (length xs)
unfolding sorted_insert
length-sorted_insert x [] = refl
length-sorted_insert x (y ∷ xs) =
    placed (text_cmp x y) (sorted_insert x xs) (length-sorted_insert x xs)
  where
    placed :
        (o : Ordering) (rest : List Text)
        → length rest ≡ suc (length xs)
        → length (elim o as (λ q. List Text) [
          | Ordering.gt ↦ y ∷ rest
          | Ordering.lt ↦ x ∷ y ∷ xs
          | Ordering.eq ↦ x ∷ y ∷ xs
        ])
          ≡ suc (suc (length xs))
    placed Ordering.gt rest e = ap suc e
    placed Ordering.lt rest e = refl
    placed Ordering.eq rest e = refl

pub length-sort : (xs : List Text) → length (sort xs) ≡ length xs
unfolding sort
length-sort [] = refl
length-sort (x ∷ xs) = length-sorted_insert x (sort xs) ∙ ap suc (length-sort xs)
