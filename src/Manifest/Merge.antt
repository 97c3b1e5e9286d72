-- ===== src/Manifest/Merge.antt =====
-- src/battery-pack/bphelper-manifest/src/lib.rs, `merge_crate_specs` and what it calls: the same
-- crate in several battery packs.
pub mod Kinds
pub mod Versions
pub mod Summary
mod Tests
use battery_pack.Prelude.{
  ℕ, zero, suc, ◌+◌, ◌-◌, ◌*◌, ◌^◌, ◌==◌, ltb, leb, Text, chars, text_cmp, Ordering, compare,
  length, get_elem?, for_each, any,
}
use battery_pack.Prelude.{
  Bool, true, false, ◌&&◌, ◌||◌, Option, none, some, List, [], ◌∷◌, ◌++◌, if◌then◌else◌,
}
use battery_pack.Prelude.Set
use battery_pack.Prelude.Map
use battery_pack.Prelude.Map.{Map}
use battery_pack.Manifest.Types.{CrateSpec, DepKind, normal, dev, build}

pub record MergedCrateSpec : Type 0 where
  pub version : Text
  pub features : List Text
  pub dep_kinds : List DepKind
  pub optional : Bool

-- `str::split` at a character; the parts of the empty string are one empty part.
abbrev pub cons_part : ℕ → List Text → List Text
cons_part c [] = (c ∷ []) ∷ []
cons_part c (p ∷ ps) = (c ∷ p) ∷ ps

unfoldable pub split : ℕ → Text → List Text
split d [] = [] ∷ []
split d (c ∷ s) = let rest = split d s in if c == d then [] ∷ rest else cons_part c rest

abbrev u64_mod : ℕ
u64_mod = 2 ^ 64

-- `str::parse::<u64>`: digits, with overflow refused, after at most one `+`.
unfoldable pub digits : ℕ → Text → Option ℕ
digits n [] = some n
digits n (c ∷ s) =
    let m = n * 10 + (c - b'0') in
    let rest = digits m s in
    if leb b'0' c && leb c b'9' then (if ltb m u64_mod then rest else none) else none

unfoldable pub parse_u64 : Text → Option ℕ
unfolding digits
parse_u64 [] = none
parse_u64 (c ∷ []) = if c == b'+' then none else digits 0 (c ∷ [])
parse_u64 (c ∷ d ∷ s) = if c == b'+' then digits 0 (d ∷ s) else digits 0 (c ∷ d ∷ s)

abbrev pub part_or_zero : List Text → ℕ → Text
part_or_zero parts i = elim (get_elem? parts i) [ none ↦ chars "0" | some part ↦ part ]

abbrev pub compare_numbers : Option ℕ → Option ℕ → Ordering → Ordering
compare_numbers (some a) (some b) fallback = compare a b
compare_numbers (some a) none fallback = fallback
compare_numbers none b fallback = fallback

unfoldable pub compare_part : Text → Text → Ordering
compare_part a b = compare_numbers (parse_u64 a) (parse_u64 b) (text_cmp a b)

-- `if ord != Equal { return ord; }`
abbrev pub then_cmp : Ordering → Ordering → Ordering
then_cmp Ordering.lt rest = Ordering.lt
then_cmp Ordering.gt rest = Ordering.gt
then_cmp Ordering.eq rest = rest

-- The loop over `i`, with the rounds left.
unfoldable pub compare_parts : ℕ → ℕ → List Text → List Text → Ordering
compare_parts zero i a b = Ordering.eq
compare_parts (suc rounds) i a b =
    let rest = compare_parts rounds (suc i) a b in
    then_cmp (compare_part (part_or_zero a i) (part_or_zero b i)) rest

unfoldable pub max_len : ℕ → ℕ → ℕ
max_len a b = if ltb a b then b else a

unfoldable pub compare_versions : Text → Text → Ordering
unfolding compare_parts compare_part max_len split parse_u64
compare_versions a b =
    let a_parts = split b'.' a in
    let b_parts = split b'.' b in
    compare_parts (max_len (length a_parts) (length b_parts)) 0 a_parts b_parts

abbrev pub same_kind : DepKind → DepKind → Bool
same_kind normal normal = true
same_kind dev dev = true
same_kind build build = true
same_kind _ _ = false

-- The derived order: `Normal`, `Dev`, `Build`.
abbrev pub kind_le : DepKind → DepKind → Bool
kind_le normal b = true
kind_le dev normal = false
kind_le dev dev = true
kind_le dev build = true
kind_le build normal = false
kind_le build dev = false
kind_le build build = true

abbrev pub insert_kind : DepKind → List DepKind → List DepKind
insert_kind k [] = k ∷ []
insert_kind k (x ∷ xs) = let rest = insert_kind k xs in if kind_le k x then k ∷ x ∷ xs else x ∷ rest

abbrev pub sort_kinds : List DepKind → List DepKind
sort_kinds [] = []
sort_kinds (k ∷ ks) = insert_kind k (sort_kinds ks)

abbrev pub has_kind : DepKind → List DepKind → Bool
has_kind k ks = any (same_kind k) ks

unfoldable pub merge_dep_kinds : List DepKind → DepKind → List DepKind
merge_dep_kinds existing incoming =
    if has_kind normal existing || same_kind incoming normal
    then normal ∷ []
    else sort_kinds (if has_kind incoming existing then existing else existing ++ incoming ∷ [])

abbrev pub is_gt : Ordering → Bool
is_gt Ordering.gt = true
is_gt Ordering.lt = false
is_gt Ordering.eq = false

-- The entry of a crate that is seen for the first time, and of one that is there.
unfoldable pub first_entry : CrateSpec → MergedCrateSpec
first_entry spec = record {
  version = spec.version;
  features = spec.features;
  dep_kinds = spec.dep_kind ∷ [];
  optional = spec.optional;
}

unfoldable pub merge_into : MergedCrateSpec → CrateSpec → MergedCrateSpec
merge_into existing spec = record {
  version =
      if is_gt (compare_versions spec.version existing.version)
      then spec.version
      else existing.version;
  features = Set.extend existing.features spec.features;
  dep_kinds = merge_dep_kinds existing.dep_kinds spec.dep_kind;
  optional = if spec.optional then existing.optional else false;
}

unfoldable pub merge_one : Text × CrateSpec → Map MergedCrateSpec → Map MergedCrateSpec
unfolding first_entry merge_into
merge_one (name, spec) merged = elim (Map.get name merged) [
  | some existing ↦ Map.insert name (merge_into existing spec) merged
  | none ↦ Map.insert name (first_entry spec) merged
]

unfoldable pub merge_crate_specs : List (Map CrateSpec) → Map MergedCrateSpec
unfolding merge_one
merge_crate_specs specs = for_each (λ pack. for_each merge_one pack) specs []
