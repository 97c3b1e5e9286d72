-- ===== src/Manifest/Validate.antt =====
-- src/battery-pack/bphelper-manifest/src/lib.rs, `BatteryPackSpec::validate` and what it calls.
-- The walk over local features takes fuel; `none` means that the fuel ran out, which the child
-- module Total excludes for the fuel that `validate_features` gives.
pub mod Total
pub mod Graph
pub mod Acyclic
pub mod Cyclic
pub mod Exact
mod Tests
use battery_pack.Prelude.{
  ℕ, zero, suc, Text, chars, text_eq, ends_with, join, length, for_each, any,
}
use battery_pack.Prelude.{Bool, true, false, ◌||◌, Option, none, some, List, [], ◌∷◌, ◌++◌, ◌≡◌}
use battery_pack.Prelude.{Result, ok, err, if◌then◌else◌}
use battery_pack.Prelude.Set
use battery_pack.Prelude.Map
use battery_pack.Prelude.Map.{Map, keys, contains_key}
use battery_pack.FeatureRef.{FeatureRef, feature, dep, dep_feature, dep_name}
use battery_pack.Manifest.Types.{
  Error, BatteryPackSpec, CrateSpec, invalid_name, unknown_crate_in_feature, feature_cycle,
}

-- `none`: out of fuel.
abbrev pub Run : Type 0 → Type 0
Run A = Option (Result A Error)

infixl 5 ◌>>=◌ ◌>>◌
abbrev pub ◌>>=◌ : {A B : Type 0} → Run A → (A → Run B) → Run B
none >>= f = none
some (ok a) >>= f = f a
some (err e) >>= f = some (err e)

abbrev pub ◌>>◌ : {B : Type 0} → Run (Unit {0}) → Run B → Run B
m >> k = m >>= λ _. k

-- What the walk mutates: the path to the current feature, and the features entered so far.
pub record Walk : Type 0 where
  pub stack : List Text
  pub visited : List Text

-- `Vec::pop`
unfoldable pub pop : List Text → List Text
pop [] = []
pop (x ∷ []) = []
pop (x ∷ y ∷ xs) = x ∷ pop (y ∷ xs)

-- `visited.insert(node)` of a new feature, and `stack.push(node)`.
abbrev pub push : Text → Walk → Walk
push node w = record { stack = w.stack ++ node ∷ []; visited = Set.insert node w.visited }

unfoldable pub reference_resolves : BatteryPackSpec → FeatureRef → Bool
reference_resolves spec (dep name) = contains_key name spec.crates
reference_resolves spec (dep_feature name f weak) = contains_key name spec.crates
reference_resolves spec (feature name) =
    contains_key name spec.crates || contains_key name spec.features

module _ (spec : BatteryPackSpec) where
  -- One round of the loop over a feature's references.
  unfoldable pub dfs_ref : (Text → Walk → Run Walk) → FeatureRef → Walk → Run Walk
  dfs_ref rec (feature name) w = if contains_key name spec.features then rec name w else some (ok w)
  dfs_ref rec (dep name) w = some (ok w)
  dfs_ref rec (dep_feature name f weak) w = some (ok w)

  unfoldable pub dfs_refs : (Text → Walk → Run Walk) → List FeatureRef → Walk → Run Walk
  dfs_refs rec [] w = some (ok w)
  dfs_refs rec (r ∷ rs) w = do w' ← dfs_ref rec r w; dfs_refs rec rs w'

  abbrev dfs_children : (Text → Walk → Run Walk) → Option (List FeatureRef) → Walk → Run Walk
  dfs_children rec none w = some (ok w)
  dfs_children rec (some refs) w = dfs_refs rec refs w

  -- The part between `stack.push` and `stack.pop`.
  unfoldable pub dfs_enter : (Text → Walk → Run Walk) → Text → Walk → Run Walk
  unfolding dfs_refs dfs_ref
  dfs_enter rec node w = do
    let pushed = push node w
    w' ← dfs_children rec (Map.get node spec.features) pushed
    some (ok (record w' { stack = pop w'.stack }))

  unfoldable pub dfs_feature : ℕ → Text → Walk → Run Walk
  dfs_feature zero node w = none
  dfs_feature (suc fuel) node w =
      if any (λ stacked. text_eq stacked node) w.stack
      then some (err (feature_cycle (join (chars "->") (w.stack ++ node ∷ []))))
      else if Set.contains node w.visited
      then some (ok w)
      else dfs_enter (dfs_feature fuel) node w

  -- `for start in self.features.keys()`
  unfoldable pub dfs_all : ℕ → List Text → Walk → Run (Unit {0})
  dfs_all fuel [] w = some (ok tt)
  dfs_all fuel (start ∷ starts) w = do w' ← dfs_feature fuel start w; dfs_all fuel starts w'

  unfoldable pub check_refs : Text → List FeatureRef → Run (Unit {0})
  check_refs feature_name [] = some (ok tt)
  check_refs feature_name (fref ∷ refs) =
      let rest = check_refs feature_name refs in
      if reference_resolves spec fref
      then rest
      else some (err (unknown_crate_in_feature feature_name (dep_name fref)))

  unfoldable pub check_features : Map (List FeatureRef) → Run (Unit {0})
  check_features [] = some (ok tt)
  check_features ((feature_name, refs) ∷ m) = do check_refs feature_name refs; check_features m

  -- No feature is entered twice, so the walk is never deeper than the number of features.
  unfoldable pub walk_fuel : ℕ
  walk_fuel = suc (length (keys spec.features))

  unfoldable pub validate_features : Run (Unit {0})
  validate_features = do
    check_features spec.features
    dfs_all walk_fuel (keys spec.features) (record { stack = []; visited = [] })

unfoldable pub valid_name : Text → Bool
valid_name name = text_eq name (chars "battery-pack") || ends_with (chars "-battery-pack") name

unfoldable pub validate : BatteryPackSpec → Run (Unit {0})
validate spec =
    if valid_name spec.name then validate_features spec else some (err (invalid_name spec.name))
