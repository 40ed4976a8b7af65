-- ===== src/Prelude/TextSet.antt =====
-- `BTreeSet<String>`: the ascending list of its elements.
use callbook_rs.Prelude.{
  Bool, Bool-cases, Bytes, List, [], any, arith, bytes_eq, if◌then◌else◌, inl, inr, refl, ◌||◌, ◌∷◌,
  ◌≡◌,
}
use callbook_rs.Prelude.Order.{lt_bytes, lt_bytes_connex}

-- `BTreeSet::insert`.
unfoldable pub insert_text : Bytes → List Bytes → List Bytes
unfolding lt_bytes
insert_text text [] = text ∷ []
insert_text text (item ∷ items) =
    let rest = insert_text text items in
    if lt_bytes text item
    then text ∷ item ∷ items
    else if lt_bytes item text
    then item ∷ rest
    else item ∷ items

-- `BTreeSet::contains`.
unfoldable pub has_text : Bytes → List Bytes → Bool
unfolding bytes_eq
has_text text items = any (λ item. bytes_eq item text) items

-- An insertion adds the text and nothing else.
pub has_text-insert_text :
    (x text : Bytes) (items : List Bytes)
    → has_text x (insert_text text items) ≡ (bytes_eq text x || has_text x items)
unfolding has_text insert_text
has_text-insert_text x text [] = refl
has_text-insert_text x text (item ∷ items) = elim (Bool-cases (lt_bytes text item)) [
  | inl e ↦ rw e refl
  | inr e ↦ elim (Bool-cases (lt_bytes item text)) [
    | inl f ↦
        rw (e, f, has_text-insert_text x text items)
          (or_swap (bytes_eq item x) (bytes_eq text x) (has_text x items))
    | inr f ↦
        let same : text ≡ item = lt_bytes_connex text item e f in
        rw (e, f, same) (or_twice (bytes_eq item x) (has_text x items))
  ]
]
  where
    or_swap : (a b c : Bool) → (a || (b || c)) ≡ (b || (a || c))
    or_swap a b c = ground arith

    or_twice : (a b : Bool) → (a || b) ≡ (a || (a || b))
    or_twice a b = ground arith
