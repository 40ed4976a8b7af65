-- ===== src/Modern/Tags.antt =====
-- `raw_tags`: the map operations that merging uses.
pub mod Lookup
pub mod Again
use callbook_rs.Prelude.{ℕ, Bytes, List, [], ◌∷◌, Option, none, some, ltb, ◌==◌, if◌then◌else◌}
use callbook_rs.Modern.Snapshot.{Tag}

-- `BTreeMap::insert`.
unfoldable pub insert : Tag → List Tag → List Tag
insert t [] = t ∷ []
insert t (u ∷ us) =
    let rest = insert t us in
    if ltb t.tag u.tag then t ∷ u ∷ us else if t.tag == u.tag then t ∷ us else u ∷ rest

-- `BTreeMap::extend`.
unfoldable pub extend : List Tag → List Tag → List Tag
unfolding insert
extend tags [] = tags
extend tags (t ∷ ts) = extend (insert t tags) ts

-- `BTreeMap::get`.
unfoldable pub get : ℕ → List Tag → Option Bytes
get n [] = none
get n (t ∷ ts) = let rest = get n ts in if n == t.tag then some t.value else rest
