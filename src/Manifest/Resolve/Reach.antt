-- ===== src/Manifest/Resolve/Reach.antt =====
-- Which crates a list of references activates, as an inductive relation, and that the expansion of
-- an acyclic pack adds exactly those.
use battery_pack.Prelude.{
  sym, ◌∙◌, ap, subst, inl, inr, ◌≡◌, ◌⊎◌, refl, Text, text_eq, text_eq_iff, arith,
}
use battery_pack.Prelude.{true, false, ◌&&◌, ◌||◌, Option, none, some, List, ◌∈◌, Bool-cases}
use battery_pack.Prelude.Set
use battery_pack.Prelude.Map
use battery_pack.Prelude.Map.{Map, contains_key}
use battery_pack.FeatureRef.{FeatureRef, feature, dep, dep_feature}
use battery_pack.Manifest.Types.{BatteryPackSpec, CrateSpec}
use battery_pack.Manifest.Validate.Graph.{Leads}
use battery_pack.Manifest.Resolve.{Resolution, ◌>>=◌, add_declared, add_dep}

module _ (spec : BatteryPackSpec) where
  -- The references make the crate a dependency: `dep:c`, `c/f`, a bare `c` that is no local feature,
  -- or a bare local feature whose own references do.
  pub data Activates : List FeatureRef → Text → Type 0 where
    by_dep : {refs : List FeatureRef} {c : Text} → dep c ∈ refs → Activates refs c
    by_strong :
        {refs : List FeatureRef} {c : Text} (f : Text)
        → dep_feature c f false ∈ refs
        → Activates refs c
    by_name :
        {refs : List FeatureRef} {c : Text}
        → feature c ∈ refs
        → Map.get c spec.features ≡ none
        → Activates refs c
    by_feature :
        {refs : List FeatureRef} {c : Text} (n : Text) (inner : List FeatureRef)
        → feature n ∈ refs
        → Map.get n spec.features ≡ some inner
        → Activates inner c
        → Activates refs c

  -- What one reference activates.
  abbrev pub One : FeatureRef → Text → Type 0
  One (dep n) c = c ≡ n
  One (dep_feature n f false) c = c ≡ n
  One (dep_feature n f true) c = ⊥
  One (feature n) c =
      (Map.get n spec.features ≡ none) × (c ≡ n)
      ⊎ (inner : List FeatureRef) × (Map.get n spec.features ≡ some inner) × Activates inner c

  pub Activates-One :
      {refs : List FeatureRef} {c : Text}
      → Activates refs c
      → (r : FeatureRef) × (r ∈ refs) × One r c
  Activates-One (by_dep {c = c} m) = (dep c, m, refl)
  Activates-One (by_strong {c = c} f m) = (dep_feature c f false, m, refl)
  Activates-One (by_name {c = c} m e) = (feature c, m, inl (e, refl))
  Activates-One (by_feature n inner m e a) = (feature n, m, inr (inner, e, a))

  pub One-Activates :
      (r : FeatureRef) {refs : List FeatureRef} {c : Text} → r ∈ refs → One r c → Activates refs c
  One-Activates (dep n) {refs} m e = by_dep (subst (λ (x : Text). dep x ∈ refs) (sym e) m)
  One-Activates (dep_feature n f true) m e = absurd e
  One-Activates (dep_feature n f false) {refs} m e =
      by_strong f (subst (λ (x : Text). dep_feature x f false ∈ refs) (sym e) m)
  One-Activates (feature n) {refs} m (inl (e, q)) =
      by_name (subst (λ (x : Text). feature x ∈ refs) (sym q) m)
        (subst (λ (x : Text). Map.get x spec.features ≡ none) (sym q) e)
  One-Activates (feature n) m (inr (inner, e, a)) = by_feature n inner m e a

  abbrev pub Has : Text → Map CrateSpec → Type 0
  Has c m = contains_key c m ≡ true

  -- `m'` has the keys of `m`, and those that `A` allows and the pack declares.
  pub record Adds (A : Text → Type 0) (m m' : Map CrateSpec) : Type 0 where
    pub sound : (c : Text) → Has c m' → Has c m ⊎ A c × Has c spec.crates
    pub keeps : (c : Text) → Has c m → Has c m'
    pub gets : (c : Text) → A c → Has c spec.crates → Has c m'

  add_declared-key :
      (name : Text) (extra : Option Text) (o : Option CrateSpec) (m : Map CrateSpec) (c : Text)
      → Map.get name spec.crates ≡ o
      → contains_key c (add_declared name extra o m)
        ≡ (contains_key c m || (text_eq c name && contains_key name spec.crates))
  unfolding add_declared
  add_declared-key name extra none m c e =
      let absent = Map.contains_key-false_of_none name spec.crates e in rw absent (ground arith)
  add_declared-key name extra (some x) m c e =
      let there = Map.get-contains_key name spec.crates e in
      Map.contains_key-insert name c _ m ∙ rw there (ground arith)

  pub add_dep-Adds :
      (n : Text) (extra : Option Text) (m : Map CrateSpec)
      → Adds (λ c. c ≡ n) m (add_dep spec n extra m)
  unfolding add_dep
  add_dep-Adds n extra m = record {
    sound = λ c h. sound c (key c) h;
    keeps = λ c h. ground (arith, key c);
    gets = λ c e h. gets c e (key c) h;
  }
    where
      key :
          (c : Text)
          → contains_key c (add_dep spec n extra m)
            ≡ (contains_key c m || (text_eq c n && contains_key n spec.crates))
      key c = add_declared-key n extra _ m c refl

      sound :
          (c : Text)
          → contains_key c (add_dep spec n extra m)
            ≡ (contains_key c m || (text_eq c n && contains_key n spec.crates))
          → Has c (add_dep spec n extra m)
          → Has c m ⊎ (c ≡ n) × Has c spec.crates
      sound c k h = elim (Bool-cases (text_eq c n)) [
        | inl same ↦
            let q = (text_eq_iff c n).0 same in
            ground (arith, ap (λ (x : Text). contains_key x spec.crates) q)
        | inr other ↦ ground arith
      ]

      gets :
          (c : Text)
          → c ≡ n
          → contains_key c (add_dep spec n extra m)
            ≡ (contains_key c m || (text_eq c n && contains_key n spec.crates))
          → Has c spec.crates
          → Has c (add_dep spec n extra m)
      gets c e k h =
          ground (arith, ap (λ (x : Text). contains_key x spec.crates) e, text_eq_iff c n)

  -- The features in `visiting` lead to every local feature among the references.
  abbrev pub OnPath : List Text → List FeatureRef → Type 0
  OnPath visiting refs =
      (v b : Text)
      → Set.contains v visiting ≡ true
      → feature b ∈ refs
      → contains_key b spec.features ≡ true
      → Leads spec v b

  -- The outcome of an expansion that returns.
  abbrev pub Expands : (Text → Type 0) → Resolution → Option Resolution → Type 0
  Expands A st none = Unit
  Expands A st (some st') = (st'.visiting ≡ st.visiting) × Adds A st.result st'.result

  pub Adds-map :
      (A B : Text → Type 0) (m m' : Map CrateSpec)
      → ((c : Text) → A c → B c)
      → ((c : Text) → B c → A c)
      → Adds A m m'
      → Adds B m m'
  Adds-map A B m m' f g a = record {
    sound = λ c h. elim (a.sound c h) [ inl old ↦ inl old | inr (x, d) ↦ inr (f c x, d) ];
    keeps = a.keeps;
    gets = λ c x d. a.gets c (g c x) d;
  }

  pub Adds-none : (A : Text → Type 0) (m : Map CrateSpec) → ((c : Text) → ¬ A c) → Adds A m m
  Adds-none A m h = record {
    sound = λ c x. inl x;
    keeps = λ c x. x;
    gets = λ c x d. absurd (h c x);
  }

  pub Adds-trans :
      (A B : Text → Type 0) (m m' m'' : Map CrateSpec)
      → Adds A m m'
      → Adds B m' m''
      → Adds (λ c. A c ⊎ B c) m m''
  Adds-trans A B m m' m'' a b = record {
    sound = λ c h. elim (b.sound c h) [
      | inl mid ↦ elim (a.sound c mid) [ inl old ↦ inl old | inr (x, d) ↦ inr (inl x, d) ]
      | inr (y, d) ↦ inr (inr y, d)
    ];
    keeps = λ c h. b.keeps c (a.keeps c h);
    gets = λ c. elim [ inl x ↦ λ d. b.keeps c (a.gets c x d) | inr y ↦ λ d. b.gets c y d ];
  }

  pub bind-Expands :
      (A B : Text → Type 0) (st : Resolution) (r : Option Resolution)
      (f : Resolution → Option Resolution)
      → Expands A st r
      → ((st' : Resolution) → st'.visiting ≡ st.visiting → Expands B st' (f st'))
      → Expands (λ c. A c ⊎ B c) st (r >>= f)
  bind-Expands A B st none f h k = tt
  bind-Expands A B st (some st') f h k = onward (f st') (k st' h.0)
    where
      onward : (r : Option Resolution) → Expands B st' r → Expands (λ c. A c ⊎ B c) st r
      onward none g = tt
      onward (some st'') g = (g.0 ∙ h.0, Adds-trans A B st.result st'.result st''.result h.1 g.1)

  pub Expands-map :
      (A B : Text → Type 0) (st : Resolution) (r : Option Resolution)
      → ((c : Text) → A c → B c)
      → ((c : Text) → B c → A c)
      → Expands A st r
      → Expands B st r
  Expands-map A B st none f g h = tt
  Expands-map A B st (some st') f g h = (h.0, Adds-map A B st.result st'.result f g h.1)
