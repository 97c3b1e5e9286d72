-- ===== src/FeatureRef/Tests.antt =====
-- Runs of the parser and the printer, as instances of their laws.
use battery_pack.Prelude.{◌≡◌, refl, ◌⊎◌, inl, true, chars, ◌++◌, ok}
use battery_pack.FeatureRef.{
  FeatureRef, dep_feature, dep_prefix, parse, parse_rest, parse_slash, split_weak, split_once,
  strip_suffix, strip_prefix, to_string,
}
use battery_pack.FeatureRef.RoundTrip.{
  IsPlain, IsSlash, parse-to_string, to_string-parse, parse-twice_prefixed,
}

abbrev serde_derive : FeatureRef
serde_derive = dep_feature (chars "serde") (chars "derive") true

serde_derive-IsPlain : IsPlain serde_derive
unfolding strip_prefix
serde_derive-IsPlain = (refl, refl, (refl, (refl, (refl, (refl, (refl, tt))))), refl, inl refl)

parse-to_string_example : parse (to_string serde_derive) ≡ ok serde_derive
parse-to_string_example = parse-to_string serde_derive serde_derive-IsPlain

parses : parse (chars "dep:serde?/derive") ≡ ok serde_derive
unfolding parse parse_rest parse_slash split_weak split_once strip_suffix strip_prefix
parses = refl

to_string-parse_example :
    (chars "dep:serde?/derive" ≡ to_string serde_derive)
    ⊎ (IsSlash serde_derive × (chars "dep:serde?/derive" ≡ dep_prefix ++ to_string serde_derive))
to_string-parse_example = to_string-parse (chars "dep:serde?/derive") serde_derive parses

parse-twice_prefixed_example :
    (parse (dep_prefix ++ dep_prefix ++ to_string serde_derive)
      ≡ ok (dep_feature (dep_prefix ++ chars "serde") (chars "derive") true))
    × (parse (to_string (dep_feature (dep_prefix ++ chars "serde") (chars "derive") true))
        ≡ ok serde_derive)
parse-twice_prefixed_example =
    parse-twice_prefixed (chars "serde") (chars "derive") true serde_derive-IsPlain
