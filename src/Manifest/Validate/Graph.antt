-- ===== src/Manifest/Validate/Graph.antt =====
-- Local features that refer to local features: the graph that the walk explores.
use battery_pack.Prelude.{subst, ap, sym, inl, inr, ◌≡◌, ◌⊎◌, refl, Text, ◌∈◌}
use battery_pack.Prelude.{true, some, List, [], ◌∷◌, ◌++◌}
use battery_pack.Prelude.Map
use battery_pack.Prelude.Map.{keys, contains_key}
use battery_pack.FeatureRef.{FeatureRef, feature}
use battery_pack.Manifest.Types.{BatteryPackSpec}
use battery_pack.Manifest.Validate.{pop}

pub pop-append : (xs : List Text) (x : Text) → pop (xs ++ x ∷ []) ≡ xs
unfolding pop
pop-append [] x = refl
pop-append (y ∷ []) x = refl
pop-append (y ∷ z ∷ xs) x = ap (λ (t : List Text). y ∷ t) (pop-append (z ∷ xs) x)

module _ (spec : BatteryPackSpec) where
  -- Feature `a` lists the local feature `b`.
  pub record Edge (a b : Text) : Type 0 where
    pub refs : List FeatureRef
    pub found : Map.get a spec.features ≡ some refs
    pub listed : feature b ∈ refs
    pub local : contains_key b spec.features ≡ true

  -- One edge or more.
  pub data Leads (a : Text) : Text → Type 0 where
    edge : {b : Text} → Edge a b → Leads a b
    next : {b c : Text} → Leads a b → Edge b c → Leads a c

  -- Each of the features lists the next one, and the last of them lists `b`.
  abbrev pub Chain : List Text → Text → Type 0
  Chain [] b = Unit
  Chain (a ∷ []) b = Edge a b
  Chain (a ∷ x ∷ xs) b = Edge a x × Chain (x ∷ xs) b

  pub Chain-append : (xs : List Text) (a b : Text) → Chain xs a → Edge a b → Chain (xs ++ a ∷ []) b
  Chain-append [] a b p e = e
  Chain-append (x ∷ []) a b p e = (p, e)
  Chain-append (x ∷ y ∷ xs) a b p e = (p.0, Chain-append (y ∷ xs) a b p.1 e)

  -- Every chain of edges from the feature is finite.
  pub data Ends : Text → Type 0 where
    ends : {a : Text} → ((b : Text) → Edge a b → Ends b) → Ends a

  pub Leads-trans : {a b c : Text} → Leads a b → Leads b c → Leads a c
  Leads-trans p (edge e) = next p e
  Leads-trans p (next q e) = next (Leads-trans p q) e

  Leads-cons : {a b c : Text} → Edge a b → Leads b c → Leads a c
  Leads-cons e (edge f) = next (edge e) f
  Leads-cons e (next q f) = next (Leads-cons e q) f

  pub Chain-Leads : (xs : List Text) (m b : Text) → Chain xs b → m ∈ xs → Leads m b
  Chain-Leads [] m b p at = absurd at
  Chain-Leads (x ∷ []) m b p (inl same) = subst (λ (a : Text). Leads a b) (sym same) (edge p)
  Chain-Leads (x ∷ []) m b p (inr at) = absurd at
  Chain-Leads (x ∷ y ∷ xs) m b p (inl same) =
      subst (λ (a : Text). Leads a b) (sym same)
        (Leads-cons p.0 (Chain-Leads (y ∷ xs) y b p.1 (inl refl)))
  Chain-Leads (x ∷ y ∷ xs) m b p (inr at) = Chain-Leads (y ∷ xs) m b p.1 at

  -- The first edge of a path, and the rest of it.
  abbrev pub First : Text → Text → Type 0
  First a c = (b : Text) × Edge a b × ((b ≡ c) ⊎ Leads b c)

  First-next : {a b c : Text} → First a b → Edge b c → First a c
  First-next (x, e', inl q) e = (x, e', inr (edge (rw q e)))
  First-next (x, e', inr q) e = (x, e', inr (next q e))

  pub first : {a c : Text} → Leads a c → First a c
  first (edge {b} e) = (b, e, inl refl)
  first (next p e) = First-next (first p) e

  turn : {a b : Text} → Edge a b → (b ≡ a) ⊎ Leads b a → Leads b b
  turn {b = b} e (inl q) = edge (subst (λ (x : Text). Edge x b) (sym q) e)
  turn e (inr p) = next p e

  pub Ends-no_cycle : {a : Text} → Ends a → ¬ Leads a a
  Ends-no_cycle (ends h) p = let (b, e, back) = first p in Ends-no_cycle (h b e) (turn e back)
