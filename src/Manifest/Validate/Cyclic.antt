-- ===== src/Manifest/Validate/Cyclic.antt =====
-- A walk that reports a cycle: the features do form one.
use battery_pack.Prelude.{
  join, chars, sym, ◌∙◌, ap, subst, inl, inr, ℕ, zero, suc, ◌≡◌, refl, Text, text_eq, text_eq_iff,
  any, any-witness, ◌∈◌,
}
use battery_pack.Prelude.{true, none, some, List, [], ◌∷◌, ◌++◌, Bool-cases, Option-cases}
use battery_pack.Prelude.{ok, err}
use battery_pack.Prelude.Set
use battery_pack.Prelude.Map
use battery_pack.Prelude.Map.{keys, contains_key}
use battery_pack.FeatureRef.{FeatureRef, feature, dep, dep_feature}
use battery_pack.Manifest.Types.{Error, BatteryPackSpec, feature_cycle}
use battery_pack.Manifest.Validate.{
  Run, ◌>>=◌, Walk, dfs_ref, dfs_refs, dfs_children, dfs_enter, dfs_feature, dfs_all, push, pop,
}
use battery_pack.Manifest.Validate.Graph.{pop-append, Edge, Leads, Chain, Chain-append, Chain-Leads}

module _ (spec : BatteryPackSpec) where
  -- The error names a cycle: on the path that it prints each feature lists the next one, and the
  -- last one is on it already.
  pub record IsCycle (e : Error) : Type 0 where
    pub node : Text
    pub names : List Text
    pub printed : e ≡ feature_cycle (join (chars "->") (names ++ node ∷ []))
    pub repeated : node ∈ names
    pub chain : Chain spec names node

  pub IsCycle-Leads : {e : Error} (c : IsCycle e) → Leads spec c.node c.node
  IsCycle-Leads c = Chain-Leads spec c.names c.node c.node c.chain c.repeated

  -- If the run fails, it reports a cycle, and there is one; if not, the stack is as it was.
  abbrev Justifies : Walk → Run Walk → Type 0
  Justifies w none = Unit
  Justifies w (some (ok w')) = w'.stack ≡ w.stack
  Justifies w (some (err e)) = IsCycle e

  -- Each feature on the stack lists the next one, and the last of them lists `node`.
  abbrev OnPath : Walk → Text → Type 0
  OnPath w node = Chain spec w.stack node

  abbrev JustifiesAll : (Text → Walk → Run Walk) → Type 0
  JustifiesAll rec = (name : Text) (w : Walk) → OnPath w name → Justifies w (rec name w)

  -- The same of each local feature among the references.
  abbrev OnPathAll : Walk → List FeatureRef → Type 0
  OnPathAll w refs =
      (b : Text) → feature b ∈ refs → contains_key b spec.features ≡ true → OnPath w b

  bind-Justifies :
      (w : Walk) (r : Run Walk) (f : Walk → Run Walk)
      → Justifies w r
      → ((w' : Walk) → w'.stack ≡ w.stack → Justifies w' (f w'))
      → Justifies w (r >>= f)
  bind-Justifies w none f h k = tt
  bind-Justifies w (some (err e)) f h k = h
  bind-Justifies w (some (ok w')) f h k = onward (f w') (k w' h)
    where
      onward : (r : Run Walk) → Justifies w' r → Justifies w r
      onward none g = tt
      onward (some (err e)) g = g
      onward (some (ok w'')) g = g ∙ h

  dfs_ref-Justifies :
      (rec : Text → Walk → Run Walk)
      → JustifiesAll rec
      → (r : FeatureRef) (w : Walk)
      → ((b : Text) → feature b ≡ r → contains_key b spec.features ≡ true → OnPath w b)
      → Justifies w (dfs_ref spec rec r w)
  unfolding dfs_ref
  dfs_ref-Justifies rec h (dep name) w on = refl
  dfs_ref-Justifies rec h (dep_feature name f k) w on = refl
  dfs_ref-Justifies rec h (feature name) w on =
      elim (Bool-cases (contains_key name spec.features)) [
        | inl e ↦ rw e (h name w (on name refl e))
        | inr e ↦ rw e refl
      ]

  dfs_refs-Justifies :
      (rec : Text → Walk → Run Walk)
      → JustifiesAll rec
      → (refs : List FeatureRef) (w : Walk) → OnPathAll w refs
      → Justifies w (dfs_refs spec rec refs w)
  unfolding dfs_refs
  dfs_refs-Justifies rec h [] w on = refl
  dfs_refs-Justifies rec h (r ∷ rs) w on =
      bind-Justifies w (dfs_ref spec rec r w) (dfs_refs spec rec rs)
        (dfs_ref-Justifies rec h r w (λ b e. on b (inl e)))
        λ w' same.
          dfs_refs-Justifies rec h rs w'
            (λ b m k. subst (λ (l : List Text). Chain spec l b) (sym same) (on b (inr m) k))

  step_on :
      (node : Text) (w : Walk)
      → OnPath w node
      → (b : Text) → Edge spec node b
      → OnPath (push node w) b
  step_on node w on b e = Chain-append spec w.stack node b on e

  dfs_children-Justifies :
      (rec : Text → Walk → Run Walk)
      → JustifiesAll rec
      → (node : Text) (w : Walk) → ((b : Text) → Edge spec node b → OnPath w b)
      → Justifies w (dfs_children spec rec (Map.get node spec.features) w)
  dfs_children-Justifies rec h node w on = elim (Option-cases (Map.get node spec.features)) [
    | inl e ↦ rw e refl
    | inr (refs, e) ↦ rw e (
        dfs_refs-Justifies rec h refs w
          λ b m k. on b (record { refs = refs; found = e; listed = m; local = k }))
  ]

  dfs_enter-Justifies :
      (rec : Text → Walk → Run Walk)
      → JustifiesAll rec
      → (node : Text) (w : Walk) → OnPath w node
      → Justifies w (dfs_enter spec rec node w)
  unfolding dfs_enter
  dfs_enter-Justifies rec h node w on =
      finish _ (dfs_children-Justifies rec h node (push node w) (step_on node w on))
    where
      finish :
          (r : Run Walk)
          → Justifies (push node w) r
          → Justifies w (r >>= λ w'. some (ok (record w' { stack = pop w'.stack })))
      finish none g = tt
      finish (some (err e)) g = g
      finish (some (ok w')) g = ap pop g ∙ pop-append w.stack node

  dfs_feature-Justifies : (fuel : ℕ) → JustifiesAll (dfs_feature spec fuel)
  unfolding dfs_feature
  dfs_feature-Justifies zero name w on = tt
  dfs_feature-Justifies (suc fuel) name w on =
      elim (Bool-cases (any (λ stacked. text_eq stacked name) w.stack)) [
        | inl cyclic ↦ rw cyclic (found cyclic)
        | inr off ↦ rw off (elim (Bool-cases (Set.contains name w.visited)) [
          | inl old ↦ rw old refl
          | inr new ↦
              rw new
                (dfs_enter-Justifies (dfs_feature spec fuel) (dfs_feature-Justifies fuel) name w on)
        ])
      ]
    where
      found :
          any (λ stacked. text_eq stacked name) w.stack ≡ true
          → IsCycle (feature_cycle (join (chars "->") (w.stack ++ name ∷ [])))
      found cyclic =
          let (m, on_stack, same) = any-witness (λ s. text_eq s name) w.stack cyclic in
          let e = (text_eq_iff m name).0 same in
          let here = subst (λ (n : Text). n ∈ w.stack) e on_stack in
          record { node = name; names = w.stack; printed = refl; repeated = here; chain = on }

  after_start :
      (w : Walk) (r : Run Walk) (f : Walk → Run (Unit {0})) (e : Error)
      → Justifies w r
      → (r >>= f) ≡ some (err e)
      → ((w' : Walk) → w'.stack ≡ w.stack → f w' ≡ some (err e) → IsCycle e)
      → IsCycle e
  after_start w none f e g failed k = absurd (cc failed)
  after_start w (some (err x)) f e g failed k = subst IsCycle (same_error failed) g
    where
      same_error : ◌≡◌ {A = Run (Unit {0})} (some (err x)) (some (err e)) → x ≡ e
      same_error q = cc q
  after_start w (some (ok w')) f e g failed k = k w' g failed

  -- A walk that fails from an empty stack reports a cycle that is there.
  pub walk_err-IsCycle :
      (fuel : ℕ) (starts : List Text) (w : Walk) (e : Error)
      → w.stack ≡ []
      → dfs_all spec fuel starts w ≡ some (err e)
      → IsCycle e
  unfolding dfs_all
  walk_err-IsCycle fuel [] w e none_open failed = absurd (cc failed)
  walk_err-IsCycle fuel (start ∷ starts) w e none_open failed =
      after_start w (dfs_feature spec fuel start w) (dfs_all spec fuel starts) e
        (dfs_feature-Justifies fuel start w
          (subst (λ (l : List Text). Chain spec l start) (sym none_open) tt))
        failed (λ w' same. walk_err-IsCycle fuel starts w' e (same ∙ none_open))
