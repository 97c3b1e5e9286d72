-- ===== src/Manifest/Views/Tests.antt =====
-- The listing of an example pack, as an instance of the law.
use battery_pack.Prelude.{◌≡◌, Text, List, some, not, ◌&&◌}
use battery_pack.Prelude.Map.{contains_key}
use battery_pack.Manifest.Example.{pack}
use battery_pack.Manifest.Resolve.{is_hidden}
use battery_pack.Manifest.Views.{Grouped, all_crates_with_grouping}
use battery_pack.Manifest.Views.Listed.{lists, all_crates_with_grouping-lists}

all_crates_with_grouping-lists_example :
    (gs : List Grouped) × (all_crates_with_grouping pack ≡ some gs)
    × ((c : Text) → lists c gs ≡ (contains_key c pack.crates && not (is_hidden pack c)))
all_crates_with_grouping-lists_example = all_crates_with_grouping-lists pack
