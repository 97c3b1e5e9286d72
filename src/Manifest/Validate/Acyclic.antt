-- ===== src/Manifest/Validate/Acyclic.antt =====
-- A walk that succeeds: no feature has an infinite chain of local features.
use battery_pack.Prelude.{
  subst, ap, sym, ◌∙◌, inl, inr, ℕ, zero, suc, ◌≡◌, ◌⊎◌, refl, Text, text_eq, text_eq_iff, any, ◌∈◌,
  arith,
}
use battery_pack.Prelude.{
  true, false, ◌||◌, none, some, List, [], ◌∷◌, ◌++◌, Bool-cases, Option-cases,
}
use battery_pack.Prelude.{ok, err}
use battery_pack.Prelude.Set
use battery_pack.Prelude.Map
use battery_pack.Prelude.Map.{keys, contains_key}
use battery_pack.FeatureRef.{FeatureRef, feature, dep, dep_feature}
use battery_pack.Manifest.Types.{BatteryPackSpec}
use battery_pack.Manifest.Validate.{
  Run, ◌>>=◌, Walk, dfs_ref, dfs_refs, dfs_children, dfs_enter, dfs_feature, dfs_all, push, pop,
  push,
}
use battery_pack.Manifest.Validate.Graph.{pop-append, Edge, Ends, ends}

unfeature : (a b : Text) → ◌≡◌ {A = FeatureRef} (feature b) (feature a) → b ≡ a
unfeature a b e = cc e

module _ (spec : BatteryPackSpec) where
  -- Every feature that was entered and left again has only finite chains.
  abbrev Settled : Walk → Type 0
  Settled w =
      (n : Text)
      → Set.contains n w.visited ≡ true
      → any (λ s. text_eq s n) w.stack ≡ false
      → Ends spec n

  -- A run that succeeds from `w` keeps the stack, and settles what it has visited.
  abbrev Settles : Walk → (Walk → Type 0) → Run Walk → Type 0
  Settles w Post none = Unit
  Settles w Post (some (err e)) = Unit
  Settles w Post (some (ok w')) = (w'.stack ≡ w.stack) × Settled w' × Post w'

  abbrev SettlesAll : (Text → Walk → Run Walk) → Type 0
  SettlesAll rec =
      (name : Text) (w : Walk) → Settled w → Settles w (λ _. Ends spec name) (rec name w)

  Settles-map :
      (w : Walk) (P Q : Walk → Type 0) (r : Run Walk)
      → ((w' : Walk) → P w' → Q w')
      → Settles w P r
      → Settles w Q r
  Settles-map w P Q none f h = tt
  Settles-map w P Q (some (err e)) f h = tt
  Settles-map w P Q (some (ok w')) f h = (h.0, h.1, f w' h.2)

  bind-Settles :
      (w : Walk) (P Q : Walk → Type 0) (r : Run Walk) (f : Walk → Run Walk)
      → Settles w P r
      → ((w' : Walk) → w'.stack ≡ w.stack → Settled w' → P w' → Settles w' Q (f w'))
      → Settles w Q (r >>= f)
  bind-Settles w P Q none f h k = tt
  bind-Settles w P Q (some (err e)) f h k = tt
  bind-Settles w P Q (some (ok w')) f h k = go (f w') (k w' h.0 h.1 h.2)
    where
      go : (r : Run Walk) → Settles w' Q r → Settles w Q r
      go none g = tt
      go (some (err e)) g = tt
      go (some (ok w'')) g = (g.0 ∙ h.0, g.1, g.2)

  -- The local features among the references.
  abbrev AllEnd : List FeatureRef → Type 0
  AllEnd refs = (b : Text) → feature b ∈ refs → contains_key b spec.features ≡ true → Ends spec b

  dfs_ref-Settles :
      (rec : Text → Walk → Run Walk)
      → SettlesAll rec
      → (r : FeatureRef) (w : Walk) → Settled w
      → Settles w
          (λ _. (b : Text) → feature b ≡ r → contains_key b spec.features ≡ true → Ends spec b)
          (dfs_ref spec rec r w)
  unfolding dfs_ref
  dfs_ref-Settles rec h (dep name) w s = (refl, s, λ b e k. cc)
  dfs_ref-Settles rec h (dep_feature name f k) w s = (refl, s, λ b e k. cc)
  dfs_ref-Settles rec h (feature name) w s = elim (Bool-cases (contains_key name spec.features)) [
    | inl e ↦ rw e (
        Settles-map w (λ _. Ends spec name) _ (rec name w)
          (λ w' end b q k. subst (Ends spec) (unfeature b name (sym q)) end) (h name w s))
    | inr e ↦ rw e (refl, s, λ b q k. no_key b (unfeature b name (sym q)) k e)
  ]
    where
      no_key :
          (b : Text)
          → name ≡ b
          → contains_key b spec.features ≡ true
          → contains_key name spec.features ≡ false
          → Ends spec b
      no_key b q k e = cc (sym k ∙ ap (λ (n : Text). contains_key n spec.features) (sym q) ∙ e)

  dfs_refs-Settles :
      (rec : Text → Walk → Run Walk)
      → SettlesAll rec
      → (refs : List FeatureRef) (w : Walk) → Settled w
      → Settles w (λ _. AllEnd refs) (dfs_refs spec rec refs w)
  unfolding dfs_refs
  dfs_refs-Settles rec h [] w s = (refl, s, λ b m k. absurd m)
  dfs_refs-Settles rec h (r ∷ rs) w s =
      bind-Settles w _ _ (dfs_ref spec rec r w) (dfs_refs spec rec rs) (dfs_ref-Settles rec h r w s)
        λ w' same s' head.
          Settles-map w' (λ _. AllEnd rs) (λ _. AllEnd (r ∷ rs)) (dfs_refs spec rec rs w')
            (λ _ tail b. elim [ inl e ↦ head b e | inr m ↦ tail b m ])
            (dfs_refs-Settles rec h rs w' s')

  any-append_one :
      (xs : List Text) (x n : Text)
      → any (λ s. text_eq s n) (xs ++ x ∷ []) ≡ (any (λ s. text_eq s n) xs || text_eq x n)
  any-append_one [] x n = ground arith
  any-append_one (y ∷ xs) x n = ground (arith, any-append_one xs x n)

  -- Entering a feature leaves the others as they were: it is on the stack itself.
  push-Settled : (node : Text) (w : Walk) → Settled w → Settled (push node w)
  push-Settled node w s n seen off =
      s n
        (ground (
          arith,
          Set.contains-insert node n w.visited,
          text_eq_iff n node,
          text_eq_iff node n,
          any-append_one w.stack node n,
        ))
        (ground (arith, any-append_one w.stack node n))

  dfs_children-Settles :
      (rec : Text → Walk → Run Walk)
      → SettlesAll rec
      → (node : Text) (w : Walk) → Settled w
      → Settles w (λ _. Ends spec node) (dfs_children spec rec (Map.get node spec.features) w)
  dfs_children-Settles rec h node w s = elim (Option-cases (Map.get node spec.features)) [
    | inl e ↦ rw e (refl, s, ends (λ b d. cc (sym e ∙ d.found)))
    | inr (refs, e) ↦ rw e (
        Settles-map w (λ _. AllEnd refs) (λ _. Ends spec node) (dfs_refs spec rec refs w)
          (λ _ all. ends (λ b d.
            all b (subst (λ (l : List FeatureRef). feature b ∈ l) (found_same d e) d.listed)
              d.local))
          (dfs_refs-Settles rec h refs w s))
  ]
    where
      found_same :
          {b : Text} {refs : List FeatureRef} (d : Edge spec node b)
          → Map.get node spec.features ≡ some refs
          → d.refs ≡ refs
      found_same d e = cc (sym d.found ∙ e)

  dfs_enter-Settles :
      (rec : Text → Walk → Run Walk)
      → SettlesAll rec
      → (node : Text) (w : Walk) → Settled w
      → Settles w (λ _. Ends spec node) (dfs_enter spec rec node w)
  unfolding dfs_enter
  dfs_enter-Settles rec h node w s =
      finish _ (dfs_children-Settles rec h node (push node w) (push-Settled node w s))
    where
      settled :
          (w' : Walk)
          → Settles (push node w) (λ _. Ends spec node) (some (ok w'))
          → Settled (record w' { stack = pop w'.stack })
      settled w' g n seen off = elim (Bool-cases (text_eq node n)) [
        | inl e ↦ subst (Ends spec) ((text_eq_iff node n).0 e) g.2
        | inr ne ↦ g.1 n seen (
            ap (any (λ s. text_eq s n)) g.0
            ∙ any-append_one w.stack node n
            ∙ rw (← pop-append w.stack node, ← g.0, off, ne))
      ]

      finish :
          (r : Run Walk)
          → Settles (push node w) (λ _. Ends spec node) r
          → Settles w
              (λ _. Ends spec node)
              (r >>= λ w'. some (ok (record w' { stack = pop w'.stack })))
      finish none g = tt
      finish (some (err e)) g = tt
      finish (some (ok w')) g = (ap pop g.0 ∙ pop-append w.stack node, settled w' g, g.2)

  dfs_feature-Settles : (fuel : ℕ) → SettlesAll (dfs_feature spec fuel)
  unfolding dfs_feature
  dfs_feature-Settles zero name w s = tt
  dfs_feature-Settles (suc fuel) name w s =
      elim (Bool-cases (any (λ stacked. text_eq stacked name) w.stack)) [
        | inl cyclic ↦ rw cyclic tt
        | inr off ↦ rw off (elim (Bool-cases (Set.contains name w.visited)) [
          | inl old ↦ rw old (refl, s, s name old off)
          | inr new ↦
              rw new (dfs_enter-Settles (dfs_feature spec fuel) (dfs_feature-Settles fuel) name w s)
        ])
      ]

  split :
      {start k : Text} {rest : Walk → Run (Unit {0})} {Later : Type 0} (r : Run Walk) (w : Walk)
      → Settles w (λ _. Ends spec start) r
      → (r >>= rest) ≡ some (ok tt)
      → ((w' : Walk) → Settled w' → rest w' ≡ some (ok tt) → Later → Ends spec k)
      → (k ≡ start) ⊎ Later
      → Ends spec k
  split none w g done f m = absurd (cc done)
  split (some (err e)) w g done f m = absurd (cc done)
  split (some (ok w')) w g done f (inl q) = subst (Ends spec) (sym q) g.2
  split (some (ok w')) w g done f (inr later) = f w' g.1 done later

  dfs_all-Settles :
      (fuel : ℕ) (starts : List Text) (w : Walk)
      → Settled w
      → dfs_all spec fuel starts w ≡ some (ok tt)
      → (k : Text) → k ∈ starts
      → Ends spec k
  unfolding dfs_all
  dfs_all-Settles fuel [] w s done k m = absurd m
  dfs_all-Settles fuel (start ∷ starts) w s done k m =
      split (dfs_feature spec fuel start w) w (dfs_feature-Settles fuel start w s) done
        (λ w' s' done'. dfs_all-Settles fuel starts w' s' done' k) m

  -- A walk over all features that succeeds leaves no feature with an infinite chain.
  pub walk_ok-Ends :
      (fuel : ℕ)
      → dfs_all spec fuel (keys spec.features) (record { stack = []; visited = [] }) ≡ some (ok tt)
      → (k : Text) → k ∈ keys spec.features
      → Ends spec k
  walk_ok-Ends fuel done k m = dfs_all-Settles fuel (keys spec.features) _ none_yet done k m
    where
      none_yet : Settled (record { stack = []; visited = [] })
      none_yet n seen off = unfold Set.contains in cc
