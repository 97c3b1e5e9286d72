-- ===== src/FeatureRef.antt =====
-- src/battery-pack/bphelper-manifest/src/feature_ref.rs: entries of a Cargo `[features]` list.
-- The definitions; the laws are in the child modules.
pub mod RoundTrip
mod Tests
use battery_pack.Prelude.{ℕ, ◌==◌, if◌then◌else◌, Text, chars, text_cmp, Ordering, ◌≡◌}
use battery_pack.Prelude.{Bool, true, false, ◌||◌, Option, none, some, List, [], ◌∷◌, ◌++◌}
use battery_pack.Prelude.{Result, ok, err}

pub data FeatureRef : Type 0 where
  feature : Text → FeatureRef
  dep : Text → FeatureRef
  dep_feature : Text → Text → Bool → FeatureRef

pub record FeatureParseError : Type 0 where
  pub raw : Text

-- `str::strip_prefix`, `str::split_once` at a character, `str::strip_suffix` at a character.
unfoldable pub strip_prefix : Text → Text → Option Text
strip_prefix [] s = some s
strip_prefix (p ∷ ps) [] = none
strip_prefix (p ∷ ps) (c ∷ s) = let rest = strip_prefix ps s in if p == c then rest else none

abbrev onto : ℕ → Option (Text × Text) → Option (Text × Text)
onto c none = none
onto c (some (a, b)) = some (c ∷ a, b)

unfoldable pub split_once : ℕ → Text → Option (Text × Text)
split_once d [] = none
split_once d (c ∷ s) = let rest = split_once d s in if c == d then some ([], s) else onto c rest

abbrev keep : ℕ → Option Text → Option Text
keep c none = none
keep c (some a) = some (c ∷ a)

unfoldable pub strip_suffix : ℕ → Text → Option Text
strip_suffix d [] = none
strip_suffix d (c ∷ []) = if c == d then some [] else none
strip_suffix d (c ∷ e ∷ s) = keep c (strip_suffix d (e ∷ s))

abbrev pub is_empty : Text → Bool
is_empty [] = true
is_empty (c ∷ s) = false

-- The halves of `dep/feature`, with the `?` of a weak reference taken off.
split_weak : Text → Text × Bool
split_weak dep_part = elim (strip_suffix b'?' dep_part) [
  | some stripped ↦ (stripped, true)
  | none ↦ (dep_part, false)
]

parse_slash : Text → Text × Bool → Text → Result FeatureRef FeatureParseError
parse_slash raw (d, weak) f =
    if is_empty d || is_empty f then err (record { raw = raw }) else ok (dep_feature d f weak)

parse_bare : Text → Bool → Text → Result FeatureRef FeatureParseError
parse_bare raw had_dep_prefix rest =
    if is_empty rest
    then err (record { raw = raw })
    else ok (if had_dep_prefix then dep rest else feature rest)

parse_rest : Text → Bool → Text → Result FeatureRef FeatureParseError
unfolding split_weak parse_slash parse_bare
parse_rest raw had_dep_prefix rest = elim (split_once b'/' rest) [
  | some (dep_part, f) ↦ parse_slash raw (split_weak dep_part) f
  | none ↦ parse_bare raw had_dep_prefix rest
]

abbrev pub dep_prefix : Text
dep_prefix = chars "dep:"

unfoldable pub parse : Text → Result FeatureRef FeatureParseError
unfolding parse_rest
parse raw = elim (strip_prefix dep_prefix raw) [
  | some stripped ↦ parse_rest raw true stripped
  | none ↦ parse_rest raw false raw
]

unfoldable pub dep_name : FeatureRef → Text
dep_name (feature name) = name
dep_name (dep name) = name
dep_name (dep_feature name f weak) = name

-- `Display`
unfoldable pub to_string : FeatureRef → Text
to_string (feature name) = name
to_string (dep name) = dep_prefix ++ name
to_string (dep_feature d f weak) = d ++ ((if weak then chars "?/" else chars "/") ++ f)

-- `Ord`
unfoldable pub cmp : FeatureRef → FeatureRef → Ordering
cmp a b = text_cmp (to_string a) (to_string b)

-- `BTreeSet<FeatureRef>` is ordered by `cmp`; an element that compares equal stays.
unfoldable pub insert : FeatureRef → List FeatureRef → List FeatureRef
insert r [] = r ∷ []
insert r (x ∷ xs) =
    let rest = insert r xs in
    elim (cmp r x) [ Ordering.lt ↦ r ∷ x ∷ xs | Ordering.eq ↦ x ∷ xs | Ordering.gt ↦ x ∷ rest ]
