-- ===== src/Manifest/Merge/Versions.antt =====
-- The comparison of versions.
use battery_pack.Prelude.{
  ℕ, zero, suc, ◌≡◌, refl, ◌∙◌, ap, Ordering, compare, Text, text_cmp, length, Option, none, some,
  List, [], ◌∷◌, arith,
}
use battery_pack.Manifest.Merge.{
  split, parse_u64, part_or_zero, compare_part, compare_numbers, then_cmp, compare_parts, max_len,
  compare_versions,
}

-- `Ordering::reverse`
abbrev pub flip : Ordering → Ordering
flip Ordering.lt = Ordering.gt
flip Ordering.eq = Ordering.eq
flip Ordering.gt = Ordering.lt

compare-flip : (a b : ℕ) → compare b a ≡ flip (compare a b)
compare-flip a b = ground arith

text_cmp-flip : (a b : Text) → text_cmp b a ≡ flip (text_cmp a b)
unfolding text_cmp
text_cmp-flip [] [] = refl
text_cmp-flip [] (y ∷ ys) = refl
text_cmp-flip (x ∷ xs) [] = refl
text_cmp-flip (x ∷ xs) (y ∷ ys) = ground (arith, text_cmp-flip xs ys, compare-flip x y)

compare_numbers-flip :
    (a b : Option ℕ) (c d : Ordering)
    → d ≡ flip c
    → compare_numbers b a d ≡ flip (compare_numbers a b c)
compare_numbers-flip none none c d e = e
compare_numbers-flip none (some y) c d e = e
compare_numbers-flip (some x) none c d e = e
compare_numbers-flip (some x) (some y) c d e = compare-flip x y

then_cmp-flip : (a b : Ordering) → then_cmp (flip a) (flip b) ≡ flip (then_cmp a b)
then_cmp-flip Ordering.lt b = refl
then_cmp-flip Ordering.eq b = refl
then_cmp-flip Ordering.gt b = refl

compare_part-flip : (a b : Text) → compare_part b a ≡ flip (compare_part a b)
unfolding compare_part
compare_part-flip a b =
    compare_numbers-flip (parse_u64 a) (parse_u64 b) (text_cmp a b) (text_cmp b a)
      (text_cmp-flip a b)

compare_parts-flip :
    (rounds i : ℕ) (a b : List Text)
    → compare_parts rounds i b a ≡ flip (compare_parts rounds i a b)
unfolding compare_parts
compare_parts-flip zero i a b = refl
compare_parts-flip (suc rounds) i a b =
    ap (λ (o : Ordering). then_cmp o (compare_parts rounds (suc i) b a))
      (compare_part-flip (part_or_zero a i) (part_or_zero b i))
    ∙ ap (then_cmp (flip (compare_part (part_or_zero a i) (part_or_zero b i))))
        (compare_parts-flip rounds (suc i) a b)
    ∙ then_cmp-flip (compare_part (part_or_zero a i) (part_or_zero b i))
        (compare_parts rounds (suc i) a b)

max_len_comm : (a b : ℕ) → max_len b a ≡ max_len a b
unfolding max_len
max_len_comm a b = ground arith

-- Swapping the versions reverses the comparison: so of two different answers one is "greater", and
-- equal is symmetric.
pub compare_versions-flip : (a b : Text) → compare_versions b a ≡ flip (compare_versions a b)
unfolding compare_versions
compare_versions-flip a b =
    ap (λ (r : ℕ). compare_parts r 0 (split b'.' b) (split b'.' a))
      (max_len_comm (length (split b'.' a)) (length (split b'.' b)))
    ∙ compare_parts-flip _ 0 (split b'.' a) (split b'.' b)
