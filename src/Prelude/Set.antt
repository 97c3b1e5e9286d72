-- ===== src/Prelude/Set.antt =====
-- `BTreeSet<String>`: the elements in ascending order. The standard library keeps the order; the
-- laws below hold for any list.
use Prim.Native.Nat.{Ordering}
use mathlib.Core.Path.{◌≡◌, refl}
use mathlib.Core.Bool.{Bool, true, false, ◌||◌}
use mathlib.Core.List.{List, [], ◌∷◌, ◌++◌}
use native.Mathlib.Omega.{arith}
use Prim.Native.Nat.{ℕ, ◌+◌, ◌≤◌, ◌<◌}
use mathlib.Core.Path.{◌∙◌}
use mathlib.Core.Logic.{inl, inr}
use battery_pack.Prelude.Lists.{◌∈◌, length}
use battery_pack.Prelude.Tests.{or-eq_true, if◌then◌else◌}
use battery_pack.Prelude.Strings.{Text, text_cmp, text_eq, text_eq_iff, text_eq_refl, text_cmp-eq}

unfoldable pub contains : Text → List Text → Bool
contains a [] = false
contains a (x ∷ xs) = text_eq a x || contains a xs

unfoldable pub insert : Text → List Text → List Text
insert a [] = a ∷ []
insert a (x ∷ xs) =
    let rest = insert a xs in
    elim (text_cmp a x) [ Ordering.lt ↦ a ∷ x ∷ xs | Ordering.eq ↦ x ∷ xs | Ordering.gt ↦ x ∷ rest ]

unfoldable pub remove : Text → List Text → List Text
remove a [] = []
remove a (x ∷ xs) = let rest = remove a xs in if text_eq a x then rest else x ∷ rest

-- `a.extend(b)`
unfoldable pub extend : List Text → List Text → List Text
extend a [] = a
extend a (x ∷ xs) = extend (insert x a) xs

pub contains-insert :
    (a b : Text) (xs : List Text) → contains b (insert a xs) ≡ (text_eq b a || contains b xs)
unfolding contains insert
contains-insert a b [] = refl
contains-insert a b (x ∷ xs) =
    ground (arith, contains-insert a b xs, text_cmp-eq a x, text_eq_iff b x, text_eq_iff b a)

pub contains-extend :
    (a b : List Text) (x : Text) → contains x (extend a b) ≡ (contains x a || contains x b)
unfolding contains extend
contains-extend a [] x = ground arith
contains-extend a (y ∷ b) x =
    ground (arith, contains-extend (insert y a) b x, contains-insert y x a)

pub remove_absent : (a : Text) (xs : List Text) → contains a xs ≡ false → remove a xs ≡ xs
unfolding contains remove
remove_absent a [] h = refl
remove_absent a (x ∷ xs) h = ground (arith, remove_absent a xs)

-- Removing what was just inserted restores the set.
pub remove-insert :
    (a : Text) (xs : List Text) → contains a xs ≡ false → remove a (insert a xs) ≡ xs
unfolding contains insert remove
remove-insert a [] h = ground (arith, text_eq_refl a)
remove-insert a (x ∷ xs) h = ground (
  arith,
  remove-insert a xs,
  remove_absent a xs,
  text_eq_refl a,
  text_cmp-eq a x,
  text_eq_iff a x,
)

-- How many of the keys are not in the set: the measure of the walks over features.
unfoldable pub unseen : List Text → List Text → ℕ
unseen seen [] = 0
unseen seen (k ∷ ks) = (if contains k seen then 0 else 1) + unseen seen ks

pub unseen-insert_le :
    (n : Text) (seen keys : List Text) → unseen (insert n seen) keys ≤ unseen seen keys
unfolding unseen
unseen-insert_le n seen [] = omega arith
unseen-insert_le n seen (k ∷ ks) =
    ground (arith, unseen-insert_le n seen ks, contains-insert n k seen)

pub unseen-insert_lt :
    (n : Text) (seen keys : List Text)
    → n ∈ keys
    → contains n seen ≡ false
    → unseen (insert n seen) keys < unseen seen keys
unfolding unseen
unseen-insert_lt n seen [] m h = absurd m
unseen-insert_lt n seen (k ∷ ks) (inl e) h =
    let fresh : contains k seen ≡ false = rw (← e) h in
    let now : contains k (insert n seen) ≡ true =
      contains-insert n k seen ∙ rw (← e) (rw (text_eq_refl n)) in
    rw (fresh, now) (omega (arith, unseen-insert_le n seen ks))
unseen-insert_lt n seen (k ∷ ks) (inr m) h =
    ground (arith, unseen-insert_lt n seen ks m h, contains-insert n k seen)

pub unseen-le-length : (seen keys : List Text) → unseen seen keys ≤ length keys
unfolding unseen
unseen-le-length seen [] = omega arith
unseen-le-length seen (k ∷ ks) = ground (arith, unseen-le-length seen ks)

pub contains-append :
    (a : Text) (xs ys : List Text) → contains a (xs ++ ys) ≡ (contains a xs || contains a ys)
unfolding contains
contains-append a [] ys = refl
contains-append a (x ∷ xs) ys = ground (arith, contains-append a xs ys)

pub contains-mem : (a : Text) (xs : List Text) → a ∈ xs → contains a xs ≡ true
unfolding contains
contains-mem a [] m = absurd m
contains-mem a (x ∷ xs) (inl e) = ground (arith, text_eq_iff a x)
contains-mem a (x ∷ xs) (inr m) = ground (arith, contains-mem a xs m)

pub mem-contains : (a : Text) (xs : List Text) → contains a xs ≡ true → a ∈ xs
unfolding contains
mem-contains a [] e = cc
mem-contains a (x ∷ xs) e = elim (or-eq_true (text_eq a x) (contains a xs) e) [
  | inl here ↦ inl ((text_eq_iff a x).0 here)
  | inr later ↦ inr (mem-contains a xs later)
]
