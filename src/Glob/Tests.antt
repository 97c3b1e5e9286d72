-- ===== src/Glob/Tests.antt =====
-- Runs of the glob matcher, as instances of its laws.
use battery_pack.Prelude.{◌≡◌, ◌↔◌, true, chars}
use battery_pack.Glob.{glob_match, Matches, glob_match_iff}

glob_match_iff_example :
    (glob_match (chars "tokio-*") (chars "tokio-util") ≡ true)
    ↔ Matches (chars "tokio-*") (chars "tokio-util")
glob_match_iff_example = glob_match_iff (chars "tokio-*") (chars "tokio-util")
