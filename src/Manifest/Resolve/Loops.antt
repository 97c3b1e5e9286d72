-- ===== src/Manifest/Resolve/Loops.antt =====
-- What the loops of the resolution over the entries of a map add to the result.
use battery_pack.Prelude.{
  ◌∙◌, ap, subst, inl, inr, ◌≡◌, ◌⊎◌, refl, Text, text_eq, text_eq_iff, not, for_each, arith,
}
use battery_pack.Prelude.{
  Bool, true, false, ◌&&◌, ◌||◌, some, List, [], ◌∷◌, ◌∈◌, Bool-cases, Option-cases,
}
use battery_pack.Prelude.Map
use battery_pack.Prelude.Map.{Map, contains_key}
use battery_pack.Manifest.Types.{BatteryPackSpec, CrateSpec}
use battery_pack.Manifest.Resolve.{
  insert_required, or_insert_each, insert_one, or_insert_one, apply_weak,
}
use battery_pack.Manifest.Resolve.Reach.{Has, Adds, Adds-map, Adds-none, Adds-trans}

module _ (spec : BatteryPackSpec) where
  -- Declared, and not optional.
  abbrev pub IsRequired : Text → Type 0
  IsRequired c = (x : CrateSpec) × ((c, x) ∈ spec.crates) × (x.optional ≡ false)

  -- An entry of the list that passes the test.
  abbrev pub Passes : (Text → CrateSpec → Bool) → Map CrateSpec → Text → Type 0
  Passes q crates c = (x : CrateSpec) × ((c, x) ∈ crates) × (q c x ≡ true)

  -- One round of a loop over entries: the key is there afterwards if the entry passes the test.
  abbrev pub KeyLaw :
      (Text → CrateSpec → Bool) → (Text × CrateSpec → Map CrateSpec → Map CrateSpec) → Type 0
  KeyLaw q step =
      (n : Text) (y : CrateSpec) (m : Map CrateSpec) (c : Text)
      → contains_key c (step (n, y) m) ≡ (contains_key c m || (text_eq c n && q n y))

  round-Adds :
      (q : Text → CrateSpec → Bool) (step : Text × CrateSpec → Map CrateSpec → Map CrateSpec)
      → KeyLaw q step
      → (n : Text) (y : CrateSpec) (m : Map CrateSpec) → Has spec n spec.crates
      → Adds spec (λ c. (c ≡ n) × (q n y ≡ true)) m (step (n, y) m)
  round-Adds q step law n y m declared = record {
    sound = λ c h. sound c (law n y m c) h;
    keeps = λ c h. ground (arith, law n y m c);
    gets = λ c a h. ground (arith, law n y m c, text_eq_iff c n);
  }
    where
      sound :
          (c : Text)
          → contains_key c (step (n, y) m) ≡ (contains_key c m || (text_eq c n && q n y))
          → Has spec c (step (n, y) m)
          → Has spec c m ⊎ ((c ≡ n) × (q n y ≡ true)) × Has spec c spec.crates
      sound c k h = elim (Bool-cases (text_eq c n)) [
        | inl same ↦
            let e = (text_eq_iff c n).0 same in
            ground (arith, ap (λ (x : Text). contains_key x spec.crates) e)
        | inr other ↦ ground arith
      ]

  first-Passes :
      (q : Text → CrateSpec → Bool) (n : Text) (y : CrateSpec) (rest : Map CrateSpec) (c : Text)
      → (c ≡ n) × (q n y ≡ true) ⊎ Passes q rest c
      → Passes q ((n, y) ∷ rest) c
  first-Passes q n y rest c (inl (e, t)) = (y, inl (ap (λ (k : Text). (k, y)) e), rw e t)
  first-Passes q n y rest c (inr (x, m, t)) = (x, inr m, t)

  Passes-first :
      (q : Text → CrateSpec → Bool) (n : Text) (y : CrateSpec) (rest : Map CrateSpec) (c : Text)
      → Passes q ((n, y) ∷ rest) c
      → (c ≡ n) × (q n y ≡ true) ⊎ Passes q rest c
  Passes-first q n y rest c (x, inl e, t) =
      inl (
        ap (λ (p : Text × CrateSpec). p.0) e,
        subst (λ (p : Text × CrateSpec). q p.0 p.1 ≡ true) e t,
      )
  Passes-first q n y rest c (x, inr m, t) = inr (x, m, t)

  loop-Adds :
      (q : Text → CrateSpec → Bool) (step : Text × CrateSpec → Map CrateSpec → Map CrateSpec)
      → KeyLaw q step
      → (crates m : Map CrateSpec)
      → ((c : Text) (x : CrateSpec) → (c, x) ∈ crates → (c, x) ∈ spec.crates)
      → Adds spec (Passes q crates) m (for_each step crates m)
  loop-Adds q step law [] m sub = Adds-none spec _ m (λ c h. h.1)
  loop-Adds q step law ((n, y) ∷ rest) m sub =
      Adds-map spec _ _ m _ (first-Passes q n y rest) (Passes-first q n y rest) (
        Adds-trans spec _ (Passes q rest) m (step (n, y) m) _
          (round-Adds q step law n y m (Map.contains_key-mem n y spec.crates (sub n y (inl refl))))
          (loop-Adds q step law rest (step (n, y) m) (λ c x k. sub c x (inr k))))

  pub insert_required-Adds :
      (m : Map CrateSpec) → Adds spec IsRequired m (insert_required spec.crates m)
  unfolding insert_required
  insert_required-Adds m =
      Adds-map spec _ _ m _ (λ c p. (p.0, p.1, ground arith)) (λ c p. (p.0, p.1, ground arith))
        (loop-Adds (λ n x. not x.optional) _ law spec.crates m (λ c x k. k))
    where
      law : KeyLaw (λ n x. not x.optional) insert_one
      law n y m c = ground (arith, Map.contains_key-insert n c y m)

  pub or_insert_each-Adds :
      (p : Text → CrateSpec → Bool) (m : Map CrateSpec)
      → Adds spec (Passes p spec.crates) m (or_insert_each p spec.crates m)
  unfolding or_insert_each
  or_insert_each-Adds p m = loop-Adds p _ law spec.crates m (λ c x k. k)
    where
      law : KeyLaw p (or_insert_one p)
      law n y m c = ground (arith, Map.contains_key-insert n c y m, text_eq_iff c n, here)
        where
          here : c ≡ n → contains_key c m ≡ contains_key n m
          here e = rw e

  -- Applying a weak reference adds no key and removes none.
  key-apply_weak :
      (w : Text × Text) (m : Map CrateSpec) (c : Text)
      → contains_key c (apply_weak w m) ≡ contains_key c m
  unfolding apply_weak
  key-apply_weak (d, f) m c = elim (Option-cases (Map.get d m)) [
    | inl e ↦ rw (e, apply_weak) refl
    | inr (entry, e) ↦
        rw (e, apply_weak)
          (Map.contains_key-insert d c _ m ∙ ground (arith, text_eq_iff c d, there e, same_key))
  ]
    where
      there : {entry : CrateSpec} → Map.get d m ≡ some entry → contains_key d m ≡ true
      there e = Map.get-contains_key d m e

      same_key : c ≡ d → contains_key c m ≡ contains_key d m
      same_key e = rw e

  pub key-apply_weak_all :
      (pending : List (Text × Text)) (m : Map CrateSpec) (c : Text)
      → contains_key c (for_each apply_weak pending m) ≡ contains_key c m
  key-apply_weak_all [] m c = refl
  key-apply_weak_all (w ∷ rest) m c =
      key-apply_weak_all rest (apply_weak w m) c ∙ key-apply_weak w m c
