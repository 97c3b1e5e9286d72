-- ===== src/Manifest/Merge/Summary.antt =====
-- What the merged entry of a crate is, from its entries in the packs.
use battery_pack.Prelude.{
  subst, ◌≡◌, refl, sym, ◌∙◌, ap, inl, inr, Bool, true, false, ◌&&◌, ◌||◌, Bool-cases, Option, none,
  some, Option-cases, List, [], ◌∷◌, ◌++◌, ◌∈◌, any, all, map, for_each, if◌then◌else◌, arith, Text,
  text_eq, text_eq_iff,
}
use mathlib.Core.List.{append_assoc, append-nil}
use battery_pack.Prelude.Set
use battery_pack.Prelude.Map
use battery_pack.Prelude.Map.{Map}
use battery_pack.Manifest.Types.{CrateSpec, DepKind}
use battery_pack.Manifest.Merge.{
  MergedCrateSpec, first_entry, merge_into, merge_one, merge_crate_specs, merge_dep_kinds,
  compare_versions, is_gt,
}
use battery_pack.Manifest.Merge.Kinds.{sections_of, merge_dep_kinds-sections_of}

-- The entries of the crate, in the order of the packs.
abbrev pub entries_in : Text → Map CrateSpec → List CrateSpec
entries_in n [] = []
entries_in n ((k, s) ∷ m) = let rest = entries_in n m in if text_eq n k then s ∷ rest else rest

abbrev pub entries : Text → List (Map CrateSpec) → List CrateSpec
entries n [] = []
entries n (m ∷ ms) = entries_in n m ++ entries n ms

abbrev merge_opt : Option MergedCrateSpec → List CrateSpec → Option MergedCrateSpec
merge_opt o [] = o
merge_opt none (s ∷ ss) = merge_opt (some (first_entry s)) ss
merge_opt (some e) (s ∷ ss) = merge_opt (some (merge_into e s)) ss

abbrev pub merge_all : MergedCrateSpec → List CrateSpec → MergedCrateSpec
merge_all e [] = e
merge_all e (s ∷ ss) = merge_all (merge_into e s) ss

abbrev pub summary : List CrateSpec → Option MergedCrateSpec
summary [] = none
summary (s ∷ ss) = some (merge_all (first_entry s) ss)

merge_opt-some :
    (e : MergedCrateSpec) (ss : List CrateSpec) → merge_opt (some e) ss ≡ some (merge_all e ss)
merge_opt-some e [] = refl
merge_opt-some e (s ∷ ss) = merge_opt-some (merge_into e s) ss

merge_opt-none : (ss : List CrateSpec) → merge_opt none ss ≡ summary ss
merge_opt-none [] = refl
merge_opt-none (s ∷ ss) = merge_opt-some (first_entry s) ss

merge_opt-append :
    (o : Option MergedCrateSpec) (xs ys : List CrateSpec)
    → merge_opt o (xs ++ ys) ≡ merge_opt (merge_opt o xs) ys
merge_opt-append o [] ys = refl
merge_opt-append none (x ∷ xs) ys = merge_opt-append (some (first_entry x)) xs ys
merge_opt-append (some e) (x ∷ xs) ys = merge_opt-append (some (merge_into e x)) xs ys

get-merge_one :
    (n k : Text) (s : CrateSpec) (m : Map MergedCrateSpec)
    → Map.get n (merge_one (k, s) m)
      ≡ (if text_eq n k then merge_opt (Map.get k m) (s ∷ []) else Map.get n m)
unfolding merge_one
get-merge_one n k s m = elim (Option-cases (Map.get k m)) [
  | inl e ↦ rw (e, merge_one) (Map.get-insert k n (first_entry s) m)
  | inr (x, e) ↦ rw (e, merge_one) (Map.get-insert k n (merge_into x s) m)
]

get-merge_pack :
    (n : Text) (pack : Map CrateSpec) (m : Map MergedCrateSpec)
    → Map.get n (for_each merge_one pack m) ≡ merge_opt (Map.get n m) (entries_in n pack)
get-merge_pack n [] m = refl
get-merge_pack n ((k, s) ∷ pack) m =
    get-merge_pack n pack (merge_one (k, s) m) ∙ elim (Bool-cases (text_eq n k)) [
      | inl same ↦
          let e = (text_eq_iff n k).0 same in
          rw same (
            ap (λ (o : Option MergedCrateSpec). merge_opt o (entries_in n pack))
              (get-merge_one n k s m
                ∙ rw same (ap (λ (x : Text). merge_opt (Map.get x m) (s ∷ [])) (sym e)))
            ∙ sym (merge_opt-append (Map.get n m) (s ∷ []) (entries_in n pack)))
      | inr other ↦ rw other (
          ap (λ (o : Option MergedCrateSpec). merge_opt o (entries_in n pack))
            (get-merge_one n k s m ∙ rw other))
    ]

get-merge_packs :
    (n : Text) (packs : List (Map CrateSpec)) (m : Map MergedCrateSpec)
    → Map.get n (for_each (λ pack. for_each merge_one pack) packs m)
      ≡ merge_opt (Map.get n m) (entries n packs)
get-merge_packs n [] m = refl
get-merge_packs n (p ∷ packs) m =
    get-merge_packs n packs (for_each merge_one p m)
    ∙ ap (λ (o : Option MergedCrateSpec). merge_opt o (entries n packs)) (get-merge_pack n p m)
    ∙ sym (merge_opt-append (Map.get n m) (entries_in n p) (entries n packs))

-- The merged entry of a crate depends on its own entries alone, in the order of the packs; a crate
-- is in the merge exactly if some pack has it.
pub get-merge_crate_specs :
    (n : Text) (packs : List (Map CrateSpec))
    → Map.get n (merge_crate_specs packs) ≡ summary (entries n packs)
unfolding merge_crate_specs
get-merge_crate_specs n packs =
    get-merge_packs n packs []
    ∙ ap (λ (o : Option MergedCrateSpec). merge_opt o (entries n packs)) none_yet
    ∙ merge_opt-none (entries n packs)
  where
    none_yet : Map.get {V = MergedCrateSpec} n [] ≡ none
    none_yet = unfold Map.get in refl

-- What the fields of a merged entry are for the entries `s ∷ ss`.
pub record Merges (ss : List CrateSpec) (e : MergedCrateSpec) : Type 0 where
  pub features :
      (f : Text) → Set.contains f e.features ≡ any (λ (s : CrateSpec). Set.contains f s.features) ss
  pub dep_kinds : e.dep_kinds ≡ sections_of (map (λ (s : CrateSpec). s.dep_kind) ss)
  pub optional : e.optional ≡ all (λ (s : CrateSpec). s.optional) ss
  pub version : e.version ∈ map (λ (s : CrateSpec). s.version) ss

any-append_one :
    {A : Type 0} (p : A → Bool) (xs : List A) (x : A) → any p (xs ++ x ∷ []) ≡ (any p xs || p x)
any-append_one p [] x = ground arith
any-append_one p (y ∷ xs) x = ground (arith, any-append_one p xs x)

all-append_one :
    {A : Type 0} (p : A → Bool) (xs : List A) (x : A) → all p (xs ++ x ∷ []) ≡ (all p xs && p x)
all-append_one p [] x = ground arith
all-append_one p (y ∷ xs) x = ground (arith, all-append_one p xs x)

map-append_one :
    {A B : Type 0} (f : A → B) (xs : List A) (x : A) → map f (xs ++ x ∷ []) ≡ map f xs ++ f x ∷ []
map-append_one f [] x = refl
map-append_one f (y ∷ xs) x = ap (λ l. f y ∷ l) (map-append_one f xs x)

mem-append_left : {A : Type 0} (a : A) (xs ys : List A) → a ∈ xs → a ∈ (xs ++ ys)
mem-append_left a [] ys m = absurd m
mem-append_left a (x ∷ xs) ys (inl e) = inl e
mem-append_left a (x ∷ xs) ys (inr m) = inr (mem-append_left a xs ys m)

mem-append_last : {A : Type 0} (xs : List A) (a : A) → a ∈ (xs ++ a ∷ [])
mem-append_last [] a = inl refl
mem-append_last (x ∷ xs) a = inr (mem-append_last xs a)

abbrev kind_of : CrateSpec → DepKind
kind_of s = s.dep_kind

abbrev version_of : CrateSpec → Text
version_of s = s.version

merge_into-Merges :
    (seen : List CrateSpec) (e : MergedCrateSpec) (s : CrateSpec)
    → Merges seen e
    → Merges (seen ++ s ∷ []) (merge_into e s)
unfolding merge_into
merge_into-Merges seen e s h = record {
  features = λ f.
      Set.contains-extend e.features s.features f
      ∙ ground (
        arith,
        h.features f,
        any-append_one (λ (x : CrateSpec). Set.contains f x.features) seen s,
      );
  dep_kinds =
      ap (λ (ks : List DepKind). merge_dep_kinds ks s.dep_kind) h.dep_kinds
      ∙ merge_dep_kinds-sections_of (map kind_of seen) s.dep_kind
      ∙ ap sections_of (sym (map-append_one kind_of seen s));
  optional = ground (arith, h.optional, all-append_one (λ (x : CrateSpec). x.optional) seen s);
  version =
      subst (λ (l : List Text). (merge_into e s).version ∈ l)
        (sym (map-append_one version_of seen s))
        (newer (is_gt (compare_versions s.version e.version)));
}
  where
    newer :
        (b : Bool) → (if b then s.version else e.version) ∈ (map version_of seen ++ s.version ∷ [])
    newer true = mem-append_last (map version_of seen) s.version
    newer false = mem-append_left e.version (map version_of seen) (s.version ∷ []) h.version

first_entry-Merges : (s : CrateSpec) → Merges (s ∷ []) (first_entry s)
unfolding first_entry sections_of
first_entry-Merges s = record {
  features = λ f. ground arith;
  dep_kinds = alone s.dep_kind;
  optional = ground arith;
  version = inl refl;
}
  where
    alone : (k : DepKind) → k ∷ [] ≡ sections_of (k ∷ [])
    alone DepKind.normal = refl
    alone DepKind.dev = refl
    alone DepKind.build = refl

merge_all-Merges :
    (seen : List CrateSpec) (e : MergedCrateSpec) (ss : List CrateSpec)
    → Merges seen e
    → Merges (seen ++ ss) (merge_all e ss)
merge_all-Merges seen e [] h = rw append-nil h
merge_all-Merges seen e (s ∷ ss) h =
    subst (λ (l : List CrateSpec). Merges l (merge_all (merge_into e s) ss))
      (append_assoc seen (s ∷ []) ss)
      (merge_all-Merges (seen ++ s ∷ []) (merge_into e s) ss (merge_into-Merges seen e s h))

summary-Merges : (ss : List CrateSpec) (e : MergedCrateSpec) → summary ss ≡ some e → Merges ss e
summary-Merges [] e q = cc
summary-Merges (s ∷ ss) e q =
    subst (Merges (s ∷ ss)) (unwrap q)
      (merge_all-Merges (s ∷ []) (first_entry s) ss (first_entry-Merges s))
  where
    unwrap :
        ◌≡◌ {A = Option MergedCrateSpec} (some (merge_all (first_entry s) ss)) (some e)
        → merge_all (first_entry s) ss ≡ e
    unwrap r = cc r

-- The merged entry of a crate has a feature exactly if some pack's entry has it; it stands in the
-- sections that the packs' sections stand for, `Normal` alone if one pack has it there; it is
-- optional exactly if it is in every pack that has it; and its version is that of some pack.
pub merge_crate_specs-Merges :
    (n : Text) (packs : List (Map CrateSpec)) (e : MergedCrateSpec)
    → Map.get n (merge_crate_specs packs) ≡ some e
    → Merges (entries n packs) e
merge_crate_specs-Merges n packs e q =
    summary-Merges (entries n packs) e (sym (get-merge_crate_specs n packs) ∙ q)
