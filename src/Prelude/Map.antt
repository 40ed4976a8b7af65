-- ===== src/Prelude/Map.antt =====
-- A hash map with text keys: the list of its entries, whose keys are distinct. Nothing depends on
-- their order.
use callbook_rs.Prelude.{
  Bytes, List, Option, [], arith, bytes_eq, bytes_eq_iff, if◌then◌else◌, none, refl, some, ◌∷◌, ◌≡◌,
}

module _ {ℓ} {V : Type ℓ} where
  -- `HashMap::insert`.
  unfoldable pub insert : Bytes → V → List (Bytes × V) → List (Bytes × V)
  unfolding bytes_eq
  insert key value [] = (key, value) ∷ []
  insert key value ((k, v) ∷ entries) =
      let rest = insert key value entries in
      if bytes_eq key k then (key, value) ∷ entries else (k, v) ∷ rest

  -- `HashMap::get`.
  unfoldable pub get : Bytes → List (Bytes × V) → Option V
  unfolding bytes_eq
  get key [] = none
  get key ((k, v) ∷ entries) = let rest = get key entries in if bytes_eq key k then some v else rest

  pub get-insert :
      (key k : Bytes) (value : V) (entries : List (Bytes × V))
      → get key (insert k value entries) ≡ (if bytes_eq key k then some value else get key entries)
  unfolding insert get
  get-insert key k value [] = refl
  get-insert key k value ((j, v) ∷ entries) =
      let same = bytes_eq_iff k j in
      let found = bytes_eq_iff key j in
      let wanted = bytes_eq_iff key k in
      grind (arith, same, found, wanted, get-insert key k value entries)
