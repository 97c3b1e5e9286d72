-- ===== src/Manifest/Validate/Total.antt =====
-- The walk over local features never runs out of the fuel that `validate_features` gives it.
use battery_pack.Prelude.{
  inl, inr, ℕ, zero, suc, ◌<◌, ◌≤◌, ◌≡◌, ◌≢◌, refl, Text, text_eq, any, ◌∈◌, arith,
}
use battery_pack.Prelude.{true, Option, none, some, List, [], ◌∷◌, Bool-cases}
use battery_pack.Prelude.{ok, err}
use battery_pack.Prelude.Set
use battery_pack.Prelude.Set.{unseen}
use battery_pack.Prelude.Map
use battery_pack.Prelude.Map.{Map, keys, contains_key}
use battery_pack.FeatureRef.{FeatureRef, feature, dep, dep_feature}
use battery_pack.Manifest.Types.{BatteryPackSpec}
use battery_pack.Manifest.Validate.{
  Run, ◌>>=◌, Walk, dfs_ref, dfs_refs, dfs_children, dfs_enter, push, dfs_feature, dfs_all,
  check_refs, check_features, walk_fuel, validate_features, validate, valid_name, ◌>>◌,
}

module _ (spec : BatteryPackSpec) where
  abbrev left : Walk → ℕ
  left w = unseen w.visited (keys spec.features)

  -- A run that does not run out of fuel, and after which at most `m` features are not visited.
  abbrev Finishes : ℕ → Run Walk → Type 0
  Finishes m none = ⊥
  Finishes m (some (err e)) = Unit
  Finishes m (some (ok w)) = left w ≤ m

  bind-Finishes :
      (m : ℕ) (r : Run Walk) (f : Walk → Run Walk)
      → Finishes m r
      → ((w : Walk) → left w ≤ m → Finishes m (f w))
      → Finishes m (r >>= f)
  bind-Finishes m none f h k = h
  bind-Finishes m (some (err e)) f h k = tt
  bind-Finishes m (some (ok w)) f h k = k w h

  Finishes-mono : (m n : ℕ) (r : Run Walk) → m ≤ n → Finishes m r → Finishes n r
  Finishes-mono m n none le h = h
  Finishes-mono m n (some (err e)) le h = tt
  Finishes-mono m n (some (ok w)) le h = omega arith

  -- `rec` finishes from every walk with fewer than `n` features to go.
  abbrev FinishesBelow : ℕ → (Text → Walk → Run Walk) → Type 0
  FinishesBelow n rec =
      (name : Text) (w : Walk)
      → contains_key name spec.features ≡ true
      → left w < n
      → Finishes (left w) (rec name w)

  dfs_ref-Finishes :
      (rec : Text → Walk → Run Walk) (n : ℕ)
      → FinishesBelow n rec
      → (r : FeatureRef) (w : Walk) → left w < n
      → Finishes (left w) (dfs_ref spec rec r w)
  unfolding dfs_ref
  dfs_ref-Finishes rec n h (dep name) w lt = omega arith
  dfs_ref-Finishes rec n h (dep_feature name f k) w lt = omega arith
  dfs_ref-Finishes rec n h (feature name) w lt =
      elim (Bool-cases (contains_key name spec.features)) [
        | inl e ↦ rw e (h name w e lt)
        | inr e ↦ rw e (omega arith)
      ]

  dfs_refs-Finishes :
      (rec : Text → Walk → Run Walk) (n : ℕ)
      → FinishesBelow n rec
      → (refs : List FeatureRef) (w : Walk) → left w < n
      → Finishes (left w) (dfs_refs spec rec refs w)
  unfolding dfs_refs
  dfs_refs-Finishes rec n h [] w lt = omega arith
  dfs_refs-Finishes rec n h (r ∷ rs) w lt =
      bind-Finishes (left w) (dfs_ref spec rec r w) (dfs_refs spec rec rs)
        (dfs_ref-Finishes rec n h r w lt)
        λ w' le.
          Finishes-mono (left w') (left w) (dfs_refs spec rec rs w') le
            (dfs_refs-Finishes rec n h rs w' (omega arith))

  dfs_children-Finishes :
      (rec : Text → Walk → Run Walk) (n : ℕ)
      → FinishesBelow n rec
      → (o : Option (List FeatureRef)) (w : Walk) → left w < n
      → Finishes (left w) (dfs_children spec rec o w)
  dfs_children-Finishes rec n h none w lt = omega arith
  dfs_children-Finishes rec n h (some refs) w lt = dfs_refs-Finishes rec n h refs w lt

  dfs_enter-Finishes :
      (rec : Text → Walk → Run Walk) (n : ℕ)
      → FinishesBelow n rec
      → (node : Text) (w : Walk) → left (push node w) < n
      → Finishes (left (push node w)) (dfs_enter spec rec node w)
  unfolding dfs_enter
  dfs_enter-Finishes rec n h node w lt =
      bind-Finishes (left (push node w))
        (dfs_children spec rec (Map.get node spec.features) (push node w)) _
        (dfs_children-Finishes rec n h (Map.get node spec.features) (push node w) lt) (λ w' le. le)

  dfs_feature-FinishesBelow : (fuel : ℕ) → FinishesBelow fuel (dfs_feature spec fuel)
  unfolding dfs_feature
  dfs_feature-FinishesBelow zero name w k lt = absurd (omega arith)
  dfs_feature-FinishesBelow (suc fuel) name w k lt =
      elim (Bool-cases (any (λ stacked. text_eq stacked name) w.stack)) [
        | inl cyclic ↦ rw cyclic tt
        | inr open_path ↦ rw open_path (elim (Bool-cases (Set.contains name w.visited)) [
          | inl old ↦ rw old (omega arith)
          | inr new ↦
              let less =
                Set.unseen-insert_lt name w.visited (keys spec.features)
                  (Map.mem_keys-contains_key name spec.features k) new in
              rw new (
                Finishes-mono (left (push name w)) (left w) _ (omega arith) (
                  dfs_enter-Finishes (dfs_feature spec fuel) fuel (dfs_feature-FinishesBelow fuel)
                    name w (omega arith)))
        ])
      ]

  after_start :
      (m : ℕ) (r : Run Walk) (f : Walk → Run (Unit {0}))
      → Finishes m r
      → ((w : Walk) → left w ≤ m → f w ≢ none)
      → (r >>= f) ≢ none
  after_start m none f fin k = absurd fin
  after_start m (some (err e)) f fin k = λ q. cc
  after_start m (some (ok w)) f fin k = k w fin

  dfs_all-total :
      (fuel : ℕ) (starts : List Text) (w : Walk)
      → ((k : Text) → k ∈ starts → contains_key k spec.features ≡ true)
      → left w < fuel
      → dfs_all spec fuel starts w ≢ none
  unfolding dfs_all
  dfs_all-total fuel [] w h lt = λ e. cc
  dfs_all-total fuel (s ∷ ss) w h lt =
      after_start (left w) (dfs_feature spec fuel s w) _
        (dfs_feature-FinishesBelow fuel s w (h s (inl refl)) lt)
        (λ w' le. dfs_all-total fuel ss w' (λ k m. h k (inr m)) (omega arith))

  check_refs-total : (name : Text) (refs : List FeatureRef) → check_refs spec name refs ≢ none
  unfolding check_refs
  check_refs-total name [] e = cc
  check_refs-total name (r ∷ rs) e = ground (arith, check_refs-total name rs)

  bind-total : (r s : Run (Unit {0})) → r ≢ none → s ≢ none → (r >> s) ≢ none
  bind-total none s h k = λ _. h refl
  bind-total (some (err e)) s h k = λ q. cc
  bind-total (some (ok u)) s h k = k

  check_features-total : (m : Map (List FeatureRef)) → check_features spec m ≢ none
  unfolding check_features
  check_features-total [] = λ e. cc
  check_features-total ((name, refs) ∷ m) =
      bind-total (check_refs spec name refs) (check_features spec m) (check_refs-total name refs)
        (check_features-total m)

  validate_features-total : validate_features spec ≢ none
  unfolding validate_features walk_fuel
  validate_features-total =
      bind-total (check_features spec spec.features) _ (check_features-total spec.features) (
        dfs_all-total _ (keys spec.features) _ (λ k. Map.contains_key-mem_keys k spec.features)
          (omega (arith, Set.unseen-le-length [] (keys spec.features))))

-- Validation returns, without an error or with one, for every battery pack, cyclic ones included:
-- the walk over local features does not run out of fuel.
pub validate-total : (spec : BatteryPackSpec) → validate spec ≢ none
unfolding validate
validate-total spec = elim (Bool-cases (valid_name spec.name)) [
  | inl e ↦ rw e (validate_features-total spec)
  | inr e ↦ rw e (λ q. cc)
]
