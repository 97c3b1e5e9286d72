-- ===== src/Prelude/Order.antt =====
-- The order of texts, and sets as ascending lists: a set that is collected again is the same list.
use Prim.Native.Nat.{Ordering}
use mathlib.Core.Path.{◌≡◌, refl, sym, ap, ◌∙◌}
use mathlib.Core.Logic.{inl, inr}
use mathlib.Core.List.{List, [], ◌∷◌, ◌++◌}
use native.Mathlib.Omega.{arith}
use battery_pack.Prelude.Set
use battery_pack.Prelude.Tests.{Ordering-cases}
use battery_pack.Prelude.Strings.{Text, text_cmp}

pub text_cmp-flip_gt : (a b : Text) → text_cmp a b ≡ Ordering.gt → text_cmp b a ≡ Ordering.lt
unfolding text_cmp
text_cmp-flip_gt [] [] e = ground arith
text_cmp-flip_gt [] (y ∷ ys) e = ground arith
text_cmp-flip_gt (x ∷ xs) [] e = ground arith
text_cmp-flip_gt (x ∷ xs) (y ∷ ys) e = ground (arith, text_cmp-flip_gt xs ys)

pub text_cmp-flip_lt : (a b : Text) → text_cmp a b ≡ Ordering.lt → text_cmp b a ≡ Ordering.gt
unfolding text_cmp
text_cmp-flip_lt [] [] e = ground arith
text_cmp-flip_lt [] (y ∷ ys) e = ground arith
text_cmp-flip_lt (x ∷ xs) [] e = ground arith
text_cmp-flip_lt (x ∷ xs) (y ∷ ys) e = ground (arith, text_cmp-flip_lt xs ys)

pub text_cmp_trans :
    (a b c : Text)
    → text_cmp a b ≡ Ordering.lt
    → text_cmp b c ≡ Ordering.lt
    → text_cmp a c ≡ Ordering.lt
unfolding text_cmp
text_cmp_trans [] [] c h k = ground arith
text_cmp_trans [] (y ∷ ys) [] h k = ground arith
text_cmp_trans [] (y ∷ ys) (z ∷ zs) h k = refl
text_cmp_trans (x ∷ xs) [] c h k = ground arith
text_cmp_trans (x ∷ xs) (y ∷ ys) [] h k = ground arith
text_cmp_trans (x ∷ xs) (y ∷ ys) (z ∷ zs) h k = ground (arith, text_cmp_trans xs ys zs)

-- Each element is below all that follow it.
abbrev pub Below : Text → List Text → Type 0
Below a [] = Unit
Below a (x ∷ xs) = (text_cmp a x ≡ Ordering.lt) × Below a xs

abbrev pub IsAscending : List Text → Type 0
IsAscending [] = Unit
IsAscending (x ∷ xs) = Below x xs × IsAscending xs

Below-trans : (a b : Text) (xs : List Text) → text_cmp a b ≡ Ordering.lt → Below b xs → Below a xs
Below-trans a b [] h k = tt
Below-trans a b (x ∷ xs) h k = (text_cmp_trans a b x h k.0, Below-trans a b xs h k.1)

Below-insert :
    (a b : Text) (xs : List Text)
    → text_cmp a b ≡ Ordering.lt
    → Below a xs
    → Below a (Set.insert b xs)
unfolding Set.insert
Below-insert a b [] h k = (h, tt)
Below-insert a b (x ∷ xs) h k = elim (Ordering-cases (text_cmp b x)) [
  | inl e ↦ rw (e, Set.insert) (h, (k.0, k.1))
  | inr (inl e) ↦ rw (e, Set.insert) (k.0, k.1)
  | inr (inr e) ↦ rw (e, Set.insert) (k.0, Below-insert a b xs h k.1)
]

pub insert-IsAscending :
    (a : Text) (xs : List Text) → IsAscending xs → IsAscending (Set.insert a xs)
unfolding Set.insert
insert-IsAscending a [] h = (tt, tt)
insert-IsAscending a (x ∷ xs) h = elim (Ordering-cases (text_cmp a x)) [
  | inl e ↦ rw (e, Set.insert) ((e, Below-trans a x xs e h.0), h)
  | inr (inl e) ↦ rw (e, Set.insert) h
  | inr (inr e) ↦
      rw (e, Set.insert)
        (Below-insert x a xs (text_cmp-flip_gt a x e) h.0, insert-IsAscending a xs h.1)
]

pub extend-IsAscending : (xs ys : List Text) → IsAscending xs → IsAscending (Set.extend xs ys)
unfolding Set.extend
extend-IsAscending xs [] h = h
extend-IsAscending xs (y ∷ ys) h =
    extend-IsAscending (Set.insert y xs) ys (insert-IsAscending y xs h)

-- All elements of the first list are below all of the second.
abbrev AllBelow : List Text → List Text → Type 0
AllBelow [] ys = Unit
AllBelow (x ∷ xs) ys = Below x ys × AllBelow xs ys

insert-last : (xs : List Text) (y : Text) → AllBelow xs (y ∷ []) → Set.insert y xs ≡ xs ++ y ∷ []
unfolding Set.insert
insert-last [] y h = refl
insert-last (x ∷ xs) y h =
    rw (text_cmp-flip_lt x y h.0.0, Set.insert)
      (ap (λ (l : List Text). x ∷ l) (insert-last xs y h.1))

AllBelow-first :
    (xs : List Text) (y : Text) (ys : List Text) → AllBelow xs (y ∷ ys) → AllBelow xs (y ∷ [])
AllBelow-first [] y ys h = tt
AllBelow-first (x ∷ xs) y ys h = ((h.0.0, tt), AllBelow-first xs y ys h.1)

AllBelow-next :
    (xs : List Text) (y : Text) (ys : List Text)
    → AllBelow xs (y ∷ ys)
    → Below y ys
    → AllBelow (xs ++ y ∷ []) ys
AllBelow-next [] y ys h k = (k, tt)
AllBelow-next (x ∷ xs) y ys h k = (h.0.1, AllBelow-next xs y ys h.1 k)

append_assoc : (xs : List Text) (y : Text) (ys : List Text) → (xs ++ y ∷ []) ++ ys ≡ xs ++ y ∷ ys
append_assoc [] y ys = refl
append_assoc (x ∷ xs) y ys = ap (λ (l : List Text). x ∷ l) (append_assoc xs y ys)

extend-append : (xs ys : List Text) → AllBelow xs ys → IsAscending ys → Set.extend xs ys ≡ xs ++ ys
unfolding Set.extend
extend-append xs [] h k = sym (append_nil xs)
  where
    append_nil : (l : List Text) → l ++ [] ≡ l
    append_nil [] = refl
    append_nil (x ∷ l) = ap (λ (m : List Text). x ∷ m) (append_nil l)
extend-append xs (y ∷ ys) h k =
    rw (insert-last xs y (AllBelow-first xs y ys h))
      (extend-append (xs ++ y ∷ []) ys (AllBelow-next xs y ys h k.0) k.1 ∙ append_assoc xs y ys)

-- Collecting an ascending list into a set gives the same list.
pub extend-ascending : (xs : List Text) → IsAscending xs → Set.extend [] xs ≡ xs
extend-ascending xs h = extend-append [] xs tt h

pub extend_again : (xs : List Text) → Set.extend [] (Set.extend [] xs) ≡ Set.extend [] xs
extend_again xs = extend-ascending (Set.extend [] xs) (extend-IsAscending [] xs tt)
