-- ===== src/Cli/Add/Exclusive.antt =====
-- When the items that are asked for conflict.
use battery_pack.Prelude.{◌≤◌, ◌≡◌, length, Text, text_eq}
use battery_pack.Prelude.{false, none, List, [], ◌∷◌, ◌++◌, if◌then◌else◌}
use battery_pack.Prelude.Set
use battery_pack.Prelude.Map
use battery_pack.Prelude.Map.{Map}
use battery_pack.Prelude.Order.{IsAscending}
use battery_pack.Manifest.Types.{BatteryPackSpec}
use battery_pack.Cli.Add.{or_empty, is_exclusive}

module _ (spec : BatteryPackSpec) where
  -- The item, once for each time that the category is among the item's.
  abbrev pub in_category : Text → Text → List Text → List Text
  in_category c item [] = []
  in_category c item (x ∷ cats) =
      if text_eq c x then item ∷ in_category c item cats else in_category c item cats

  -- The items of a category, in the order in which they are asked for.
  abbrev pub members : (Text → List Text) → Text → List Text → List Text
  members categories c [] = []
  members categories c (item ∷ items) =
      in_category c item (categories item) ++ members categories c items

  abbrev pub at : Text → Map (List Text) → List Text
  at c m = or_empty (Map.get c m)

  -- The categories of the map are exclusive, and in ascending order.
  abbrev pub IsGrouped : Map (List Text) → Type 0
  IsGrouped m =
      IsAscending (Map.keys m) × ((c : Text) → is_exclusive spec c ≡ false → Map.get c m ≡ none)

  -- No category of the map has two members.
  abbrev pub AllSingle : Map (List Text) → Type 0
  AllSingle m = (c : Text) → length (at c m) ≤ 1
