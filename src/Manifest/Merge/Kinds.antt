-- ===== src/Manifest/Merge/Kinds.antt =====
-- Dependency sections of a merged crate.
use battery_pack.Prelude.{◌≡◌, refl, ◌∙◌, Bool, true, false, ◌||◌, List, [], ◌∷◌, ◌++◌, arith}
use battery_pack.Manifest.Types.{DepKind, normal, dev, build}
use battery_pack.Manifest.Merge.{same_kind, has_kind, merge_dep_kinds}

-- The sections that a set of kinds stands for: `Normal` alone if it is one of them, else `Dev` and
-- `Build` as far as they occur, in this order.
abbrev pub sections : Bool → Bool → Bool → List DepKind
sections true d b = normal ∷ []
sections false true true = dev ∷ build ∷ []
sections false true false = dev ∷ []
sections false false true = build ∷ []
sections false false false = []

unfoldable pub sections_of : List DepKind → List DepKind
sections_of ks = sections (has_kind normal ks) (has_kind dev ks) (has_kind build ks)

has_kind-append_one :
    (k : DepKind) (ks : List DepKind) (x : DepKind)
    → has_kind k (ks ++ x ∷ []) ≡ (has_kind k ks || same_kind k x)
has_kind-append_one k [] x = ground arith
has_kind-append_one k (y ∷ ks) x = ground (arith, has_kind-append_one k ks x)

step :
    (n d b : Bool) (k : DepKind)
    → merge_dep_kinds (sections n d b) k
      ≡ sections (n || same_kind normal k) (d || same_kind dev k) (b || same_kind build k)
unfolding merge_dep_kinds
step true d b k = refl
step false true true normal = refl
step false true true dev = refl
step false true true build = refl
step false true false normal = refl
step false true false dev = refl
step false true false build = refl
step false false true normal = refl
step false false true dev = refl
step false false true build = refl
step false false false normal = refl
step false false false dev = refl
step false false false build = refl

-- Adding a section to those that some kinds stand for gives those that all the kinds stand for.
pub merge_dep_kinds-sections_of :
    (ks : List DepKind) (k : DepKind)
    → merge_dep_kinds (sections_of ks) k ≡ sections_of (ks ++ k ∷ [])
unfolding sections_of
merge_dep_kinds-sections_of ks k =
    step (has_kind normal ks) (has_kind dev ks) (has_kind build ks) k ∙ simp (has_kind-append_one)
