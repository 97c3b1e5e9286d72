-- ===== src/FeatureRef/RoundTrip.antt =====
-- Parsing and printing of feature references.
use battery_pack.Prelude.{ℕ, ◌==◌, ==_iff, Text, ◌≡◌, refl, ◌⊎◌, inl, inr, ap, sym, ◌∙◌}
use battery_pack.Prelude.{Bool, true, false, Option, none, some, [], ◌∷◌, ◌++◌, Bool-cases, arith}
use battery_pack.Prelude.{Option-cases, if◌then◌else◌}
use mathlib.Core.List.{append_assoc}
use battery_pack.Prelude.{ok}
use battery_pack.FeatureRef.{
  FeatureRef, onto, keep, feature, dep, dep_feature, strip_prefix, split_once, strip_suffix,
  is_empty, split_weak, parse_slash, parse_bare, parse_rest, dep_prefix, parse, to_string,
}

-- `c` does not occur in the text.
abbrev pub Lacks : ℕ → Text → Type 0
Lacks c [] = Unit
Lacks c (x ∷ s) = ((x == c) ≡ false) × Lacks c s

-- What the strong and weak forms, the bare name and the `dep:` form must satisfy to be read back.
abbrev pub IsPlain : FeatureRef → Type 0
IsPlain (feature name) =
    (is_empty name ≡ false) × Lacks b'/' name × (strip_prefix dep_prefix name ≡ none)
IsPlain (dep name) = (is_empty name ≡ false) × Lacks b'/' name
IsPlain (dep_feature d f weak) =
    (is_empty d ≡ false)
    × (is_empty f ≡ false)
    × Lacks b'/' d
    × (strip_prefix dep_prefix d ≡ none)
    × ((weak ≡ true) ⊎ (strip_suffix b'?' d ≡ none))

split_once-Lacks : (c : ℕ) (s : Text) → Lacks c s → split_once c s ≡ none
unfolding split_once
split_once-Lacks c [] h = refl
split_once-Lacks c (x ∷ s) h = ground (arith, split_once-Lacks c s)

split_once-append : (c : ℕ) (s t : Text) → Lacks c s → split_once c (s ++ c ∷ t) ≡ some (s, t)
unfolding split_once
split_once-append c [] t h = ground arith
split_once-append c (x ∷ s) t h = ground (arith, split_once-append c s t)

strip_suffix-append : (c : ℕ) (s : Text) → strip_suffix c (s ++ c ∷ []) ≡ some s
unfolding strip_suffix
strip_suffix-append c [] = ground arith
strip_suffix-append c (x ∷ []) = ground arith
strip_suffix-append c (x ∷ y ∷ s) = ground (arith, strip_suffix-append c (y ∷ s))

strip_prefix-append :
    (p s : Text) (x : ℕ) (t : Text)
    → Lacks x p
    → strip_prefix p s ≡ none
    → strip_prefix p (s ++ x ∷ t) ≡ none
unfolding strip_prefix
strip_prefix-append [] s x t h e = cc
strip_prefix-append (p ∷ ps) [] x t h e = ground arith
strip_prefix-append (p ∷ ps) (c ∷ s) x t h e = ground (arith, strip_prefix-append ps s x t)

strip_prefix-eq : (p s t : Text) → strip_prefix p s ≡ some t → s ≡ p ++ t
unfolding strip_prefix
strip_prefix-eq [] s t e = cc
strip_prefix-eq (p ∷ ps) [] t e = cc
strip_prefix-eq (p ∷ ps) (c ∷ s) t e = ground (arith, strip_prefix-eq ps s t)

onto-eq :
    (c : ℕ) (o : Option (Text × Text)) (a b : Text)
    → onto c o ≡ some (a, b)
    → (rest : Text) × (a ≡ c ∷ rest) × (o ≡ some (rest, b))
onto-eq c none a b e = cc
onto-eq c (some (x, y)) a b e = (x, ground arith, ground arith)

keep-eq :
    (c : ℕ) (o : Option Text) (a : Text)
    → keep c o ≡ some a
    → (rest : Text) × (a ≡ c ∷ rest) × (o ≡ some rest)
keep-eq c none a e = cc
keep-eq c (some x) a e = (x, ground arith, refl)

split_once-eq : (c : ℕ) (s a b : Text) → split_once c s ≡ some (a, b) → (s ≡ a ++ c ∷ b) × Lacks c a
unfolding split_once
split_once-eq c [] a b e = cc
split_once-eq c (x ∷ s) a b e = elim (Bool-cases (x == c)) [
  | inl here ↦
      let f : ◌≡◌ {A = Option (Text × Text)} (some ([], s)) (some (a, b)) = rw here at e in
      let (ea, eb) = parts f in rw (← ea, ← eb) (ap (λ y. y ∷ s) ((==_iff x c).0 here), tt)
  | inr later ↦
      let (rest, head, more) = onto-eq x (split_once c s) a b (rw later at e) in
      let (tail, lacks) = split_once-eq c s rest b more in
      rw head (ap (λ (r : Text). x ∷ r) tail, (later, lacks))
]
  where
    parts : ◌≡◌ {A = Option (Text × Text)} (some ([], s)) (some (a, b)) → ([] ≡ a) × (s ≡ b)
    parts f = (ground arith, ground arith)

strip_suffix-eq : (c : ℕ) (s t : Text) → strip_suffix c s ≡ some t → s ≡ t ++ c ∷ []
unfolding strip_suffix
strip_suffix-eq c [] t e = cc
strip_suffix-eq c (x ∷ []) t e = ground arith
strip_suffix-eq c (x ∷ y ∷ s) t e =
    let (rest, head, more) = keep-eq x (strip_suffix c (y ∷ s)) t e in
    rw head (cc (strip_suffix-eq c (y ∷ s) rest more))

Lacks-append : (c : ℕ) (s t : Text) → Lacks c s → Lacks c t → Lacks c (s ++ t)
Lacks-append c [] t h k = k
Lacks-append c (x ∷ s) t h k = (h.0, Lacks-append c s t h.1 k)

is_empty-append : (s : Text) (x : ℕ) (t : Text) → is_empty (s ++ x ∷ t) ≡ false
is_empty-append [] x t = refl
is_empty-append (y ∷ s) x t = refl

module _ (raw rest : Text) (had : Bool) where
  parse_rest-slash :
      (a b : Text)
      → split_once b'/' rest ≡ some (a, b)
      → parse_rest raw had rest ≡ parse_slash raw (split_weak a) b
  unfolding parse_rest
  parse_rest-slash a b e = rw (e, parse_rest)

  parse_rest-bare : split_once b'/' rest ≡ none → parse_rest raw had rest ≡ parse_bare raw had rest
  unfolding parse_rest
  parse_rest-bare e = rw (e, parse_rest)

parse-none :
    (raw : Text) → strip_prefix dep_prefix raw ≡ none → parse raw ≡ parse_rest raw false raw
unfolding parse
parse-none raw e = rw (e, parse)

parse-some :
    (raw s : Text) → strip_prefix dep_prefix raw ≡ some s → parse raw ≡ parse_rest raw true s
unfolding parse
parse-some raw s e = rw (e, parse)

strip_prefix-dep : (s : Text) → strip_prefix dep_prefix (dep_prefix ++ s) ≡ some s
unfolding strip_prefix
strip_prefix-dep s = refl

-- The two forms with a slash, after any `dep:` has been taken off.
parse_rest-weak :
    (raw d f : Text) (had : Bool)
    → Lacks b'/' d
    → is_empty d ≡ false
    → is_empty f ≡ false
    → parse_rest raw had (d ++ b'?' ∷ b'/' ∷ f) ≡ ok (dep_feature d f true)
unfolding parse_slash split_weak
parse_rest-weak raw d f had l ed ef =
    parse_rest-slash raw _ had (d ++ b'?' ∷ []) f (
      ap (split_once b'/') (sym (append_assoc d (b'?' ∷ []) (b'/' ∷ f)))
      ∙ split_once-append b'/' (d ++ b'?' ∷ []) f (Lacks-append b'/' d (b'?' ∷ []) l (refl, tt)))
    ∙ rw (strip_suffix-append b'?' d, split_weak) (rw (ed, ef))

parse_rest-strong :
    (raw d f : Text) (had : Bool)
    → Lacks b'/' d
    → strip_suffix b'?' d ≡ none
    → is_empty d ≡ false
    → is_empty f ≡ false
    → parse_rest raw had (d ++ b'/' ∷ f) ≡ ok (dep_feature d f false)
unfolding parse_slash split_weak
parse_rest-strong raw d f had l q ed ef =
    parse_rest-slash raw _ had d f (split_once-append b'/' d f l) ∙ rw (q, split_weak) (rw (ed, ef))

parse_rest-to_string :
    (raw d f : Text) (w had : Bool)
    → Lacks b'/' d
    → (w ≡ true) ⊎ (strip_suffix b'?' d ≡ none)
    → is_empty d ≡ false
    → is_empty f ≡ false
    → parse_rest raw had (to_string (dep_feature d f w)) ≡ ok (dep_feature d f w)
unfolding to_string
parse_rest-to_string raw d f true had l q ed ef = parse_rest-weak raw d f had l ed ef
parse_rest-to_string raw d f false had l (inl e) ed ef = cc
parse_rest-to_string raw d f false had l (inr e) ed ef = parse_rest-strong raw d f had l e ed ef

-- A reference whose parts are not empty, whose name or dependency holds no `/`, whose bare name or
-- dependency half does not begin with `dep:`, and whose strong dependency half does not end in
-- `?`, is what its printed form parses to.
pub parse-to_string : (r : FeatureRef) → IsPlain r → parse (to_string r) ≡ ok r
unfolding to_string parse_bare
parse-to_string (feature name) h =
    parse-none name h.2 ∙ parse_rest-bare name name false (split_once-Lacks b'/' name h.1) ∙ rw h.0
parse-to_string (dep name) h =
    parse-some (dep_prefix ++ name) name (strip_prefix-dep name)
    ∙ parse_rest-bare _ name true (split_once-Lacks b'/' name h.1)
    ∙ rw h.0
parse-to_string (dep_feature d f true) h =
    parse-none _
      (strip_prefix-append dep_prefix d b'?' (b'/' ∷ f) (refl, (refl, (refl, (refl, tt)))) h.3)
    ∙ parse_rest-weak _ d f false h.2 h.0 h.1
parse-to_string (dep_feature d f false) h =
    parse-none _ (strip_prefix-append dep_prefix d b'/' f (refl, (refl, (refl, (refl, tt)))) h.3)
    ∙ parse_rest-to_string _ d f false false h.2 h.4 h.0 h.1

-- `r` is a `dep/feature` reference.
abbrev pub IsSlash : FeatureRef → Type 0
IsSlash r = (d : Text) × (f : Text) × (w : Bool) × (r ≡ dep_feature d f w)

split_weak-eq :
    (a f : Text) → a ++ b'/' ∷ f ≡ to_string (dep_feature (split_weak a).0 f (split_weak a).1)
unfolding split_weak to_string
split_weak-eq a f = elim (Option-cases (strip_suffix b'?' a)) [
  | inl e ↦ rw (e, split_weak) refl
  | inr (t, e) ↦
      rw (e, split_weak)
        (ap (λ (s : Text). s ++ b'/' ∷ f) (strip_suffix-eq b'?' a t e)
          ∙ append_assoc t (b'?' ∷ []) (b'/' ∷ f))
]

parse_slash-eq :
    (raw : Text) (p : Text × Bool) (f : Text) (r : FeatureRef)
    → parse_slash raw p f ≡ ok r
    → r ≡ dep_feature p.0 f p.1
unfolding parse_slash
parse_slash-eq raw (d, w) f r e = ground arith

parse_bare-eq :
    (raw : Text) (had : Bool) (rest : Text) (r : FeatureRef)
    → parse_bare raw had rest ≡ ok r
    → r ≡ (if had then dep rest else feature rest)
unfolding parse_bare
parse_bare-eq raw had rest r e = ground arith

parse_rest-eq :
    (raw : Text) (had : Bool) (rest : Text) (r : FeatureRef)
    → parse_rest raw had rest ≡ ok r
    → (IsSlash r × (rest ≡ to_string r)) ⊎ (r ≡ (if had then dep rest else feature rest))
parse_rest-eq raw had rest r e = elim (Option-cases (split_once b'/' rest)) [
  | inl s ↦ inr (parse_bare-eq raw had rest r (sym (parse_rest-bare raw rest had s) ∙ e))
  | inr ((a, f), s) ↦
      let q =
        parse_slash-eq raw (split_weak a) f r (sym (parse_rest-slash raw rest had a f s) ∙ e) in
      inl (
        ((split_weak a).0, f, (split_weak a).1, q),
        (split_once-eq b'/' rest a f s).0 ∙ split_weak-eq a f ∙ ap to_string (sym q),
      )
]

-- A parsed entry is its printed form, or `dep:` before the printed form of a `dep/feature` entry.
pub to_string-parse :
    (raw : Text) (r : FeatureRef)
    → parse raw ≡ ok r
    → (raw ≡ to_string r) ⊎ (IsSlash r × (raw ≡ dep_prefix ++ to_string r))
to_string-parse raw r e = elim (Option-cases (strip_prefix dep_prefix raw)) [
  | inl s ↦ elim (parse_rest-eq raw false raw r (sym (parse-none raw s) ∙ e)) [
    | inl (slash, q) ↦ inl q
    | inr q ↦ inl (unfold to_string in rw q)
  ]
  | inr (t, s) ↦
      let raw_eq = strip_prefix-eq dep_prefix raw t s in
      elim (parse_rest-eq raw true t r (sym (parse-some raw t s) ∙ e)) [
        | inl (slash, q) ↦ inr (slash, raw_eq ∙ ap (λ (x : Text). dep_prefix ++ x) q)
        | inr q ↦ inl (unfold to_string in raw_eq ∙ sym (ap to_string q))
      ]
]

-- `dep:dep:d/f`, with `d/f` plain, parses to a reference whose printed form parses to another one:
-- printing and parsing, as serialisation does, loses the second `dep:`.
pub parse-twice_prefixed :
    (d f : Text) (w : Bool)
    → IsPlain (dep_feature d f w)
    → (parse (dep_prefix ++ dep_prefix ++ to_string (dep_feature d f w))
        ≡ ok (dep_feature (dep_prefix ++ d) f w))
      × (parse (to_string (dep_feature (dep_prefix ++ d) f w)) ≡ ok (dep_feature d f w))
unfolding to_string
parse-twice_prefixed [] f w h = cc
parse-twice_prefixed (x ∷ d) f w h = (
  parse-some _ _ (strip_prefix-dep _)
      ∙ parse_rest-to_string _ (dep_prefix ++ x ∷ d) f w true lacks (suffix h.4) refl h.1,
  parse-some _ _ (strip_prefix-dep _) ∙ parse_rest-to_string _ (x ∷ d) f w true h.2 h.4 h.0 h.1,
)
  where
    lacks : Lacks b'/' (dep_prefix ++ x ∷ d)
    lacks = (refl, (refl, (refl, (refl, h.2))))

    suffix :
        (w ≡ true) ⊎ (strip_suffix b'?' (x ∷ d) ≡ none)
        → (w ≡ true) ⊎ (strip_suffix b'?' (dep_prefix ++ x ∷ d) ≡ none)
    suffix (inl e) = inl e
    suffix (inr e) = inr (unfold strip_suffix in rw (e, strip_suffix))
