-- ===== src/Cli/Names.antt =====
-- src/battery-pack/bphelper-cli/src/registry.rs: the short name of a battery pack and the name of its
-- crate.
use battery_pack.Prelude.{
  keep, ℕ, ◌≡◌, refl, sym, ◌∙◌, ap, inl, inr, arith, Bool-cases, length, length-append, Text, chars,
  text_eq, text_eq_iff, ends_with, or-eq_false,
}
use battery_pack.Prelude.{true, false, ◌||◌, Option, none, some, [], ◌∷◌, ◌++◌, if◌then◌else◌}

abbrev suffix : Text
suffix = chars "-battery-pack"

-- `str::strip_suffix`
unfoldable pub strip_suffix : Text → Text → Option Text
strip_suffix ending [] = if text_eq [] ending then some [] else none
strip_suffix ending (c ∷ s) =
    let rest = strip_suffix ending s in if text_eq (c ∷ s) ending then some [] else keep c rest

abbrev or_whole : Text → Option Text → Text
or_whole name none = name
or_whole name (some short) = short

unfoldable pub short_name : Text → Text
unfolding strip_suffix
short_name crate_name = or_whole crate_name (strip_suffix suffix crate_name)

unfoldable pub resolve_crate_name : Text → Text
resolve_crate_name name =
    if text_eq name (chars "battery-pack") || ends_with suffix name then name else name ++ suffix

longer : (c : ℕ) (s t : Text) → text_eq (c ∷ s ++ t) t ≡ false
longer c s t = elim (Bool-cases (text_eq (c ∷ s ++ t) t)) [
  | inl e ↦
      absurd
        (omega (arith, ap length ((text_eq_iff (c ∷ s ++ t) t).0 e), length-append {0} (c ∷ s) t))
  | inr e ↦ e
]

strip_suffix-append : (s ending : Text) → strip_suffix ending (s ++ ending) ≡ some s
unfolding strip_suffix
strip_suffix-append [] [] = rw ((text_eq_iff [] []).1 refl) refl
strip_suffix-append [] (c ∷ ending) = rw ((text_eq_iff (c ∷ ending) (c ∷ ending)).1 refl) refl
strip_suffix-append (c ∷ s) ending = rw (longer c s ending, strip_suffix-append s ending) refl

text_eq_sym : (a b : Text) → text_eq a b ≡ text_eq b a
text_eq_sym a b = ground (arith, text_eq_iff a b, text_eq_iff b a)

strip_suffix-none : (s ending : Text) → ends_with ending s ≡ false → strip_suffix ending s ≡ none
unfolding strip_suffix ends_with
strip_suffix-none [] ending e = rw (text_eq_sym [] ending ∙ e) refl
strip_suffix-none (c ∷ s) ending e =
    let parts = or-eq_false (text_eq ending (c ∷ s)) (ends_with ending s) e in
    rw (text_eq_sym (c ∷ s) ending ∙ parts.0, strip_suffix-none s ending parts.1) refl

ends_with-append : (s ending : Text) → ends_with ending (s ++ ending) ≡ true
unfolding ends_with
ends_with-append [] [] = (text_eq_iff [] []).1 refl
ends_with-append [] (c ∷ ending) = rw ((text_eq_iff (c ∷ ending) (c ∷ ending)).1 refl) refl
ends_with-append (c ∷ s) ending = ground (arith, ends_with-append s ending)

kept :
    (name : Text)
    → (text_eq name (chars "battery-pack") || ends_with suffix name) ≡ true
    → resolve_crate_name name ≡ name
unfolding resolve_crate_name
kept name e = rw e refl

extended :
    (name : Text)
    → (text_eq name (chars "battery-pack") || ends_with suffix name) ≡ false
    → resolve_crate_name name ≡ name ++ suffix
unfolding resolve_crate_name
extended name e = rw e refl

shortened : (name : Text) → short_name (name ++ suffix) ≡ name
unfolding short_name
shortened name = rw (strip_suffix-append name suffix) refl

unshortened :
    (name : Text)
    → (text_eq name (chars "battery-pack") || ends_with suffix name) ≡ false
    → short_name name ≡ name
unfolding short_name
unshortened name e =
    rw
      (strip_suffix-none name suffix
        (or-eq_false (text_eq name (chars "battery-pack")) (ends_with suffix name) e).1)
      refl

ended :
    (name : Text)
    → (text_eq (name ++ suffix) (chars "battery-pack") || ends_with suffix (name ++ suffix)) ≡ true
ended name = ground (arith, ends_with-append name suffix)

-- A name and the crate that it is resolved to have the same short name, and the resolved name is
-- resolved to itself.
pub short_name-resolve_crate_name :
    (name : Text)
    → (short_name (resolve_crate_name name) ≡ short_name name)
      × (resolve_crate_name (resolve_crate_name name) ≡ resolve_crate_name name)
short_name-resolve_crate_name name =
    elim (Bool-cases (text_eq name (chars "battery-pack") || ends_with suffix name)) [
      | inl whole ↦ let e = kept name whole in (ap short_name e, ap resolve_crate_name e)
      | inr other ↦
          let e = extended name other in
          (
            ap short_name e ∙ shortened name ∙ sym (unshortened name other),
            ap resolve_crate_name e ∙ kept (name ++ suffix) (ended name) ∙ sym e,
          )
    ]
