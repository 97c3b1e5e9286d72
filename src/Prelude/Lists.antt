-- ===== src/Prelude/Lists.antt =====
-- Lists measured and indexed by native numbers, under the library's names.
use Prim.Native.Nat.{ℕ, zero, suc, ◌+◌}
use mathlib.Core.Path.{◌≡◌, refl}
use mathlib.Core.Logic.{◌↔◌, ◌⊎◌, inl, inr}
use mathlib.Core.Bool.{Bool, true, false, ◌&&◌, ◌||◌}
use mathlib.Core.List.{List, [], ◌∷◌, ◌++◌}
use mathlib.Core.Option.{Option, none, some}
use native.Mathlib.Omega.{arith}
use battery_pack.Prelude.Tests.{if◌then◌else◌, or-eq_true, or-eq_false}

module _ {ℓ} {A : Type ℓ} where
  abbrev pub length : List A → ℕ
  length [] = 0
  length (x ∷ xs) = suc (length xs)

  abbrev pub get_elem? : List A → ℕ → Option A
  get_elem? [] i = none
  get_elem? (x ∷ xs) zero = some x
  get_elem? (x ∷ xs) (suc i) = get_elem? xs i

  -- `iter().any(p)`, `iter().all(p)`, `iter().filter(p)`
  abbrev pub any : (A → Bool) → List A → Bool
  any p [] = false
  any p (x ∷ xs) = p x || any p xs

  abbrev pub all : (A → Bool) → List A → Bool
  all p [] = true
  all p (x ∷ xs) = p x && all p xs

  abbrev pub filter : (A → Bool) → List A → List A
  filter p [] = []
  filter p (x ∷ xs) = let rest = filter p xs in if p x then x ∷ rest else rest

-- `is_empty`
abbrev pub null {ℓ} : {A : Type ℓ} → List A → Bool
null [] = true
null (x ∷ xs) = false

-- `for x in xs { s = f(x, s) }`
abbrev pub for_each {ℓ κ} : {A : Type ℓ} {S : Type κ} → (A → S → S) → List A → S → S
for_each f [] s = s
for_each f (x ∷ xs) s = for_each f xs (f x s)

-- Membership as a type that computes on the list.
infix 40 ◌∈◌
abbrev pub ◌∈◌ : {A : Type 0} → A → List A → Type 0
a ∈ [] = ⊥
a ∈ x ∷ xs = (a ≡ x) ⊎ (a ∈ xs)

pub any-true :
    {A : Type 0} (p : A → Bool) (xs : List A) {a : A} → a ∈ xs → p a ≡ true → any p xs ≡ true
any-true p [] m e = absurd m
any-true p (x ∷ xs) (inl same) e = rw (← same, e)
any-true p (x ∷ xs) (inr m) e = ground (arith, any-true p xs m e)

pub any-witness :
    {A : Type 0} (p : A → Bool) (xs : List A) → any p xs ≡ true → (a : A) × (a ∈ xs) × (p a ≡ true)
any-witness p [] e = cc
any-witness p (x ∷ xs) e = elim (or-eq_true (p x) (any p xs) e) [
  | inl h ↦ (x, inl refl, h)
  | inr h ↦ let w = any-witness p xs h in (w.0, inr w.1, w.2)
]

pub any_iff {κ} :
    {A : Type 0} (p : A → Bool) (P : A → Type κ)
    → ((a : A) → (p a ≡ true) ↔ P a)
    → (xs : List A) → (any p xs ≡ true) ↔ ((a : A) × (a ∈ xs) × P a)
any_iff p P h xs = (
  λ e. let (a, m, q) = any-witness p xs e in (a, m, (h a).0 q),
  λ w. any-true p xs w.1 ((h w.0).1 w.2),
)

pub any-false :
    {A : Type 0} (p : A → Bool) (xs : List A) {a : A} → any p xs ≡ false → a ∈ xs → p a ≡ false
any-false p [] e m = absurd m
any-false p (x ∷ xs) e (inl same) = rw same (or-eq_false (p x) (any p xs) e).0
any-false p (x ∷ xs) e (inr m) = any-false p xs (or-eq_false (p x) (any p xs) e).1 m

pub length-append {ℓ} : {A : Type ℓ} (xs ys : List A) → length (xs ++ ys) ≡ length xs + length ys
length-append [] ys = omega arith
length-append (x ∷ xs) ys = omega (arith, length-append xs ys)
