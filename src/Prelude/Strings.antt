-- ===== src/Prelude/Strings.antt =====
-- Rust strings as lists of Unicode scalar values. The order of `str` is by UTF-8 bytes, which is
-- the lexicographic order of the scalar values.
use Prim.Native.Char.{code}
use Prim.Native.String.{String}
use Prim.Native.Nat.{ℕ, compare, Ordering}
use mathlib.Core.Path.{◌≡◌, refl, sym, ap}
use mathlib.Core.Logic.{◌↔◌, ◌≢◌, inl, inr}
use mathlib.Core.Bool.{Bool, true, false, ◌||◌}
use mathlib.Core.Option.{Option, none, some}
use mathlib.Core.List.{List, [], ◌∷◌, ◌++◌}
use native.Mathlib.Omega.{arith}
use battery_pack.Prelude.Tests.{or-eq_true}

abbrev pub Text : Type 0
Text = List ℕ

abbrev pub chars : String → Text
chars String.[] = []
chars (String.◌∷◌ c s) = code c ∷ chars s

unfoldable pub text_cmp : Text → Text → Ordering
text_cmp [] [] = Ordering.eq
text_cmp [] (y ∷ ys) = Ordering.lt
text_cmp (x ∷ xs) [] = Ordering.gt
text_cmp (x ∷ xs) (y ∷ ys) =
    let rest = text_cmp xs ys in
    elim (compare x y) [
      | Ordering.lt ↦ Ordering.lt
      | Ordering.gt ↦ Ordering.gt
      | Ordering.eq ↦ rest
    ]

abbrev pub is_eq : Ordering → Bool
is_eq Ordering.eq = true
is_eq Ordering.lt = false
is_eq Ordering.gt = false

unfoldable pub text_eq : Text → Text → Bool
unfolding text_cmp
text_eq a b = is_eq (text_cmp a b)

pub text_eq_iff : (a b : Text) → (text_eq a b ≡ true) ↔ (a ≡ b)
unfolding text_eq
text_eq_iff [] [] = ground arith
text_eq_iff [] (y ∷ ys) = ground arith
text_eq_iff (x ∷ xs) [] = ground arith
text_eq_iff (x ∷ xs) (y ∷ ys) = ground (arith, text_eq_iff xs ys)

pub text_eq_refl : (a : Text) → text_eq a a ≡ true
text_eq_refl a = (text_eq_iff a a).1 refl

pub text_cmp-eq : (a b : Text) → text_cmp a b ≡ Ordering.eq → a ≡ b
text_cmp-eq a b e = (text_eq_iff a b).0 (unfold text_eq in rw e)

pub text_eq-true : (a b : Text) → a ≡ b → text_eq a b ≡ true
text_eq-true a b e = (text_eq_iff a b).1 e

pub text_eq-false : (a b : Text) → a ≢ b → text_eq a b ≡ false
text_eq-false a b ne = ground (arith, text_eq_iff a b)

pub text_cmp_refl : (a : Text) → text_cmp a a ≡ Ordering.eq
unfolding text_cmp
text_cmp_refl [] = refl
text_cmp_refl (x ∷ xs) = ground (arith, text_cmp_refl xs)

pub text_cmp-gt_ne : (a b : Text) → text_cmp a b ≡ Ordering.gt → a ≢ b
text_cmp-gt_ne a b e same = cc (text_cmp_refl a, ap (text_cmp a) same)

-- `str::ends_with`
unfoldable pub ends_with : Text → Text → Bool
ends_with suffix [] = text_eq suffix []
ends_with suffix (c ∷ s) = text_eq suffix (c ∷ s) || ends_with suffix s

pub ends_with_iff :
    (suffix s : Text) → (ends_with suffix s ≡ true) ↔ ((stem : Text) × (s ≡ stem ++ suffix))
unfolding ends_with
ends_with_iff suffix s = (stem_of s, λ w. from_stem w.0 s w.1)
  where
    stem_of : (s : Text) → ends_with suffix s ≡ true → (stem : Text) × (s ≡ stem ++ suffix)
    stem_of [] e = ([], sym ((text_eq_iff suffix []).0 e))
    stem_of (c ∷ s) e = elim (or-eq_true (text_eq suffix (c ∷ s)) (ends_with suffix s) e) [
      | inl all ↦ ([], sym ((text_eq_iff suffix (c ∷ s)).0 all))
      | inr later ↦ let w = stem_of s later in (c ∷ w.0, ap (λ (t : Text). c ∷ t) w.1)
    ]

    from_stem : (stem s : Text) → s ≡ stem ++ suffix → ends_with suffix s ≡ true
    from_stem [] [] e = (text_eq_iff suffix []).1 (sym e)
    from_stem [] (c ∷ s) e = ground (arith, (text_eq_iff suffix (c ∷ s)).1 (sym e))
    from_stem (x ∷ stem) [] e = cc e
    from_stem (x ∷ stem) (c ∷ s) e = ground (arith, from_stem stem s (cc e))

-- `[T]::join`
unfoldable pub join : Text → List Text → Text
join sep [] = []
join sep (x ∷ []) = x
join sep (x ∷ y ∷ xs) = x ++ (sep ++ join sep (y ∷ xs))

-- `[&str]::sort`
unfoldable pub sorted_insert : Text → List Text → List Text
sorted_insert x [] = x ∷ []
sorted_insert x (y ∷ ys) =
    let rest = sorted_insert x ys in
    elim (text_cmp x y) [
      | Ordering.gt ↦ y ∷ rest
      | Ordering.lt ↦ x ∷ y ∷ ys
      | Ordering.eq ↦ x ∷ y ∷ ys
    ]

unfoldable pub sort : List Text → List Text
unfolding sorted_insert
sort [] = []
sort (x ∷ xs) = sorted_insert x (sort xs)

-- A character before a text, if there is one.
abbrev pub keep : ℕ → Option Text → Option Text
keep c none = none
keep c (some s) = some (c ∷ s)
