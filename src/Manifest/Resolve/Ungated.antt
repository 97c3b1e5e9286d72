-- ===== src/Manifest/Resolve/Ungated.antt =====
-- Dependencies that no feature gates.
use battery_pack.Prelude.{
  sym, ◌∙◌, ap, subst, inl, inr, ◌≡◌, ◌⊎◌, ◌↔◌, refl, Text, or-eq_true, not, map, arith,
}
use battery_pack.Prelude.{Bool, true, false, ◌&&◌, ◌||◌, List, [], ◌∷◌, ◌∈◌, Bool-cases}
use battery_pack.Prelude.Set
use battery_pack.Prelude.Map.{Map}
use battery_pack.FeatureRef.{FeatureRef, dep_name}
use battery_pack.Manifest.Types.{BatteryPackSpec, CrateSpec, DepKind}
use battery_pack.Manifest.Resolve.{featured, is_normal, unconditional}

-- Some feature of the list refers to the crate.
abbrev pub Refers : Map (List FeatureRef) → Text → Type 0
Refers m c =
    (f : Text) × (refs : List FeatureRef) × (r : FeatureRef) × ((f, refs) ∈ m)
    × (r ∈ refs)
    × (dep_name r ≡ c)

named-Refers :
    (refs : List FeatureRef) (c : Text)
    → c ∈ map dep_name refs
    → (r : FeatureRef) × (r ∈ refs) × (dep_name r ≡ c)
named-Refers [] c m = absurd m
named-Refers (x ∷ refs) c (inl e) = (x, inl refl, sym e)
named-Refers (x ∷ refs) c (inr m) = let (r, l, q) = named-Refers refs c m in (r, inr l, q)

mem-named : (refs : List FeatureRef) (r : FeatureRef) → r ∈ refs → dep_name r ∈ map dep_name refs
mem-named [] r m = absurd m
mem-named (x ∷ refs) r (inl e) = inl (ap dep_name e)
mem-named (x ∷ refs) r (inr m) = inr (mem-named refs r m)

pub featured-Refers :
    (m : Map (List FeatureRef)) (c : Text) → Set.contains c (featured m) ≡ true → Refers m c
unfolding featured
featured-Refers [] c e = absurd (Set.mem-contains c [] e)
featured-Refers ((f, refs) ∷ m) c e =
    elim (or-eq_true _ _ (sym (Set.contains-append c (map dep_name refs) (featured m)) ∙ e)) [
      | inl here ↦
          let (r, l, q) = named-Refers refs c (Set.mem-contains c _ here) in
          (f, refs, r, inl refl, l, q)
      | inr later ↦
          let (g, rs, r, at_g, l, q) = featured-Refers m c later in (g, rs, r, inr at_g, l, q)
    ]

pub Refers-featured :
    (m : Map (List FeatureRef)) (c : Text) → Refers m c → Set.contains c (featured m) ≡ true
unfolding featured
Refers-featured [] c (f, refs, r, at_f, l, q) = absurd at_f
Refers-featured ((g, rs) ∷ m) c (f, refs, r, inl e, l, q) =
    Set.contains-append c (map dep_name rs) (featured m) ∙ rw here
  where
    here : Set.contains c (map dep_name rs) ≡ true
    here = Set.contains-mem c _ (
        subst (λ (n : Text). n ∈ map dep_name rs) q
          (mem-named rs r (subst (λ (p : Text × List FeatureRef). r ∈ p.1) e l)))
Refers-featured ((g, rs) ∷ m) c (f, refs, r, inr at_f, l, q) =
    Set.contains-append c (map dep_name rs) (featured m)
    ∙ ground (arith, Refers-featured m c (f, refs, r, at_f, l, q))

module _ (spec : BatteryPackSpec) where
  -- A dev or build dependency, or one that is not optional and that no feature refers to.
  abbrev pub IsUngated : Text → CrateSpec → Type 0
  IsUngated c x =
      (x.dep_kind ≡ DepKind.dev)
      ⊎ ((x.dep_kind ≡ DepKind.build) ⊎ (x.optional ≡ false) × ¬ Refers spec.features c)

  pub unconditional_iff :
      (c : Text) (x : CrateSpec) → (unconditional spec c x ≡ true) ↔ IsUngated c x
  unfolding unconditional
  unconditional_iff c x = (to x.dep_kind x.optional, from x.dep_kind x.optional)
    where
      to :
          (k : DepKind) (o : Bool)
          → (not (is_normal k) || (not o && not (Set.contains c (featured spec.features)))) ≡ true
          → (k ≡ DepKind.dev) ⊎ ((k ≡ DepKind.build) ⊎ (o ≡ false) × ¬ Refers spec.features c)
      to DepKind.dev o e = inl refl
      to DepKind.build o e = inr (inl refl)
      to DepKind.normal true e = cc
      to DepKind.normal false e =
          inr (inr (refl, λ r. cc (rw (Refers-featured spec.features c r) at e)))

      from :
          (k : DepKind) (o : Bool)
          → (k ≡ DepKind.dev) ⊎ ((k ≡ DepKind.build) ⊎ (o ≡ false) × ¬ Refers spec.features c)
          → (not (is_normal k) || (not o && not (Set.contains c (featured spec.features)))) ≡ true
      from DepKind.dev o h = refl
      from DepKind.build o h = refl
      from DepKind.normal o (inl e) = cc
      from DepKind.normal o (inr (inl e)) = cc
      from DepKind.normal o (inr (inr (e, no_ref))) =
          elim (Bool-cases (Set.contains c (featured spec.features))) [
            | inl there ↦ absurd (no_ref (featured-Refers spec.features c there))
            | inr absent ↦ rw (e, absent)
          ]
