-- ===== src/Glob.antt =====
-- src/battery-pack/bphelper-manifest/src/lib.rs, `glob_match`: patterns for hidden dependencies.
mod Tests
use battery_pack.Prelude.{
  ap, ℕ, ◌==◌, ==_iff, if◌then◌else◌, Text, ◌≡◌, refl, ◌↔◌, ◌≢◌, ◌⊎◌, inl, inr,
}
use battery_pack.Prelude.{Bool, true, false, ◌||◌, [], ◌∷◌, ◌++◌, Bool-cases, or-eq_true, arith}

-- The slices of the source are the tails of the lists.
unfoldable pub glob_match_inner : Text → Text → Bool
glob_match_inner [] [] = true
glob_match_inner [] (b ∷ txt) = false
glob_match_inner (a ∷ pat) [] =
    let rest = glob_match_inner pat [] in if a == b'*' then rest else false
glob_match_inner (a ∷ pat) (b ∷ txt) =
    let skip = glob_match_inner pat (b ∷ txt) in
    let consume = glob_match_inner (a ∷ pat) txt in
    let both = glob_match_inner pat txt in
    if a == b'*'
    then skip || consume
    else if a == b'?'
    then both
    else if a == b
    then both
    else false

unfoldable pub glob_match : Text → Text → Bool
unfolding glob_match_inner
glob_match pattern name = glob_match_inner pattern name

-- What a pattern stands for: `*` for any text, `?` for any character, another character for itself.
pub data Matches : Text → Text → Type 0 where
  end : Matches [] []
  star :
      {pat : Text} (skipped : Text) {txt all : Text}
      → Matches pat txt
      → all ≡ skipped ++ txt
      → Matches (b'*' ∷ pat) all
  one : {pat txt : Text} (b : ℕ) → Matches pat txt → Matches (b'?' ∷ pat) (b ∷ txt)
  same :
      {pat txt : Text} (a : ℕ) → a ≢ b'*' → a ≢ b'?' → Matches pat txt → Matches (a ∷ pat) (a ∷ txt)

-- A match that begins with `*` lets it take one more character.
star_more :
    {p all : Text} (b : ℕ) (pat : Text) → Matches p all → p ≡ b'*' ∷ pat → Matches p (b ∷ all)
star_more b pat end e = cc
star_more b pat (star skipped m eq) e = star (b ∷ skipped) m (ap (λ (t : Text). b ∷ t) eq)
star_more b pat (one c m) e = absurd (ground arith)
star_more b pat (same a ns nq m) e = absurd (ground arith)

by_star : (a : ℕ) (pat txt : Text) → a ≡ b'*' → Matches pat txt → Matches (a ∷ pat) txt
by_star a pat txt e m = rw e (star [] m refl)

by_one : (a b : ℕ) (pat txt : Text) → a ≡ b'?' → Matches pat txt → Matches (a ∷ pat) (b ∷ txt)
by_one a b pat txt e m = rw e (one b m)

by_same :
    (a b : ℕ) (pat txt : Text)
    → a ≡ b
    → a ≢ b'*'
    → a ≢ b'?'
    → Matches pat txt
    → Matches (a ∷ pat) (b ∷ txt)
by_same a b pat txt e ns nq m = rw (← e) (same a ns nq m)

-- The test of each branch, with what the branch goes on to accept.
step :
    (a b : ℕ) (pat txt : Text)
    → glob_match_inner (a ∷ pat) (b ∷ txt) ≡ true
    → (a ≡ b'*') × (glob_match_inner pat (b ∷ txt) ≡ true)
      ⊎ ((a ≡ b'*') × (glob_match_inner (a ∷ pat) txt ≡ true)
          ⊎ ((a ≡ b'?') × (glob_match_inner pat txt ≡ true)
              ⊎ (a ≡ b) × (a ≢ b'*') × (a ≢ b'?') × (glob_match_inner pat txt ≡ true)))
unfolding glob_match_inner
step a b pat txt e = ground arith

sound : (pat txt : Text) → glob_match_inner pat txt ≡ true → Matches pat txt
sound [] [] e = end
sound [] (b ∷ txt) e = unfold glob_match_inner in cc
sound (a ∷ pat) [] e =
    let both : (a ≡ b'*') × (glob_match_inner pat [] ≡ true) =
      unfold glob_match_inner in ground arith in
    by_star a pat [] both.0 (sound pat [] both.1)
sound (a ∷ pat) (b ∷ txt) e = elim (step a b pat txt e) [
  | inl (s, h) ↦ by_star a pat (b ∷ txt) s (sound pat (b ∷ txt) h)
  | inr (inl (s, h)) ↦ star_more b pat (sound (a ∷ pat) txt h) (ap (λ (c : ℕ). c ∷ pat) s)
  | inr (inr (inl (q, h))) ↦ by_one a b pat txt q (sound pat txt h)
  | inr (inr (inr (q, ns, nq, h))) ↦ by_same a b pat txt q ns nq (sound pat txt h)
]

star_any :
    (pat skipped txt : Text)
    → glob_match_inner (b'*' ∷ pat) txt ≡ true
    → glob_match_inner (b'*' ∷ pat) (skipped ++ txt) ≡ true
unfolding glob_match_inner
star_any pat [] txt e = e
star_any pat (s ∷ ss) txt e = ground (arith, star_any pat ss txt)

star_zero :
    (pat txt : Text) → glob_match_inner pat txt ≡ true → glob_match_inner (b'*' ∷ pat) txt ≡ true
unfolding glob_match_inner
star_zero pat [] e = ground arith
star_zero pat (s ∷ ss) e = ground arith

complete : {pat txt : Text} → Matches pat txt → glob_match_inner pat txt ≡ true
unfolding glob_match_inner
complete end = refl
complete (star {pat} sk {txt} m e) = rw e (star_any pat sk txt (star_zero pat txt (complete m)))
complete (one b m) = complete m
complete (same a ns nq m) = ground (arith, complete m)

-- The matcher accepts exactly the names that the pattern stands for.
pub glob_match_iff : (pat name : Text) → (glob_match pat name ≡ true) ↔ Matches pat name
unfolding glob_match
glob_match_iff pat name = (sound pat name, complete)
