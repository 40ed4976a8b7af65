-- ===== src/Hci/KeyIndex/Slice.antt =====
-- The slice of the sorted table between two partition points, against a filter of the unsorted one.
use callbook_rs.Prelude.{
  All, Bool, Bool-cases, List, [], ap, ap₂, arith, drop, false, filter, if◌then◌else◌, inl, inr,
  leb, length, ltb, refl, slice, subst, suc, take, true, ℕ, ◌-◌, ◌<◌, ◌==◌, ◌∙◌, ◌∷◌, ◌≡◌, ◌≤◌,
}
use callbook_rs.Prelude.Search.{partition_point, IsPartitioned, partition_point_lem, filter-Fails}
use callbook_rs.Prelude.Trim.{Fails}
use callbook_rs.Hci.Data.{HciKeyRef}
use callbook_rs.Hci.KeyIndex.{ref_before, insert_ref, sort_refs}

abbrev pub has_hash : ℕ → HciKeyRef → Bool
has_hash hash ref = ref.hash == hash

-- Ordinals go up.
abbrev pub Ascending : List HciKeyRef → Type 0
Ascending [] = Unit
Ascending (ref ∷ refs) = All (λ r. ref.index < r.index) refs × Ascending refs

-- An insertion keeps the elements with one hash in the order of their ordinals.
filter-insert_ref :
    (hash : ℕ) (ref : HciKeyRef) (refs : List HciKeyRef)
    → All (λ r. ref.index < r.index) refs
    → filter (has_hash hash) (insert_ref ref refs) ≡ (
        if has_hash hash ref
        then ref ∷ filter (has_hash hash) refs
        else filter (has_hash hash) refs)
unfolding insert_ref ref_before
filter-insert_ref hash ref [] a = refl
filter-insert_ref hash ref (r ∷ refs) a = ground (arith, filter-insert_ref hash ref refs a.1)

All-insert_ref {ℓ} :
    (P : HciKeyRef → Type ℓ) (ref : HciKeyRef) (refs : List HciKeyRef)
    → P ref
    → All P refs
    → All P (insert_ref ref refs)
unfolding insert_ref
All-insert_ref P ref [] h a = (h, tt)
All-insert_ref P ref (r ∷ refs) h a = elim (Bool-cases (ref_before r ref)) [
  | inl e ↦ rw e (a.0, All-insert_ref P ref refs h a.1)
  | inr e ↦ rw e (h, a)
]

All-sort_refs {ℓ} :
    (P : HciKeyRef → Type ℓ) (refs : List HciKeyRef) → All P refs → All P (sort_refs refs)
unfolding sort_refs
All-sort_refs P [] a = tt
All-sort_refs P (ref ∷ refs) a =
    All-insert_ref P ref (sort_refs refs) a.0 (All-sort_refs P refs a.1)

filter-sort_refs :
    (hash : ℕ) (refs : List HciKeyRef)
    → Ascending refs
    → filter (has_hash hash) (sort_refs refs) ≡ filter (has_hash hash) refs
unfolding sort_refs
filter-sort_refs hash [] a = refl
filter-sort_refs hash (ref ∷ refs) a =
    filter-insert_ref hash ref (sort_refs refs) (All-sort_refs (λ r. ref.index < r.index) refs a.0)
    ∙ ap (λ rs. if has_hash hash ref then ref ∷ rs else rs) (filter-sort_refs hash refs a.1)

-- Hashes never go down.
abbrev pub HashSorted : List HciKeyRef → Type 0
HashSorted [] = Unit
HashSorted (ref ∷ refs) = All (λ r. ref.hash ≤ r.hash) refs × HashSorted refs

hash-le_trans :
    (n m : ℕ) (refs : List HciKeyRef)
    → n ≤ m
    → All (λ r. m ≤ r.hash) refs
    → All (λ r. n ≤ r.hash) refs
hash-le_trans n m [] h a = tt
hash-le_trans n m (r ∷ refs) h a = (omega (arith, a.0), hash-le_trans n m refs h a.1)

insert_ref-HashSorted :
    (ref : HciKeyRef) (refs : List HciKeyRef) → HashSorted refs → HashSorted (insert_ref ref refs)
unfolding insert_ref
insert_ref-HashSorted ref [] s = (tt, tt)
insert_ref-HashSorted ref (r ∷ refs) s = elim (Bool-cases (ref_before r ref)) [
  | inl e ↦
      let h : r.hash ≤ ref.hash = unfold ref_before in ground arith in
      rw e
        (All-insert_ref (λ q. r.hash ≤ q.hash) ref refs h s.0, insert_ref-HashSorted ref refs s.1)
  | inr e ↦
      let h : ref.hash ≤ r.hash = unfold ref_before in ground arith in
      rw e ((h, hash-le_trans ref.hash r.hash refs h s.0), s)
]

sort_refs-HashSorted : (refs : List HciKeyRef) → HashSorted (sort_refs refs)
unfolding sort_refs
sort_refs-HashSorted [] = tt
sort_refs-HashSorted (ref ∷ refs) =
    insert_ref-HashSorted ref (sort_refs refs) (sort_refs-HashSorted refs)

above-Fails :
    (hash n : ℕ) (refs : List HciKeyRef)
    → ltb n hash ≡ false
    → All (λ r. n ≤ r.hash) refs
    → All (Fails (λ r. ltb r.hash hash)) refs
above-Fails hash n [] h a = tt
above-Fails hash n (r ∷ refs) h a = (ground (arith, a.0), above-Fails hash n refs h a.1)

beyond-Fails :
    (hash n : ℕ) (refs : List HciKeyRef)
    → leb n hash ≡ false
    → All (λ r. n ≤ r.hash) refs
    → All (Fails (λ r. leb r.hash hash)) refs
beyond-Fails hash n [] h a = tt
beyond-Fails hash n (r ∷ refs) h a = (ground (arith, a.0), beyond-Fails hash n refs h a.1)

HashSorted-lt :
    (hash : ℕ) (refs : List HciKeyRef) → HashSorted refs → IsPartitioned (λ r. ltb r.hash hash) refs
HashSorted-lt hash [] s = tt
HashSorted-lt hash (r ∷ refs) s =
    (λ h. above-Fails hash r.hash refs h s.0, HashSorted-lt hash refs s.1)

HashSorted-le :
    (hash : ℕ) (refs : List HciKeyRef) → HashSorted refs → IsPartitioned (λ r. leb r.hash hash) refs
HashSorted-le hash [] s = tt
HashSorted-le hash (r ∷ refs) s =
    (λ h. beyond-Fails hash r.hash refs h s.0, HashSorted-le hash refs s.1)

no_hash :
    (hash n : ℕ) (refs : List HciKeyRef)
    → hash < n
    → All (λ r. n ≤ r.hash) refs
    → All (Fails (has_hash hash)) refs
no_hash hash n [] h a = tt
no_hash hash n (r ∷ refs) h a = (ground (arith, a.0), no_hash hash n refs h a.1)

abbrev lower : ℕ → List HciKeyRef → ℕ
lower hash refs = length (filter (λ r. ltb r.hash hash) refs)

abbrev upper : ℕ → List HciKeyRef → ℕ
upper hash refs = length (filter (λ r. leb r.hash hash) refs)

slice-filter :
    (hash : ℕ) (refs : List HciKeyRef)
    → HashSorted refs
    → slice refs (lower hash refs) (upper hash refs) ≡ filter (has_hash hash) refs
slice-filter hash [] s = refl
slice-filter hash (r ∷ refs) s = elim (Bool-cases (ltb r.hash hash)) [
  | inl below ↦
      let le : leb r.hash hash ≡ true = ground arith in
      let ne : (r.hash == hash) ≡ false = ground arith in
      let diff : suc (upper hash refs) - suc (lower hash refs) ≡ upper hash refs - lower hash refs =
        omega arith in
      rw (below, le, ne, diff) (slice-filter hash refs s.1)
  | inr above ↦
      let none_below =
        filter-Fails (λ r. ltb r.hash hash) refs (above-Fails hash r.hash refs above s.0) in
      elim (Bool-cases (r.hash == hash)) [
        | inl e ↦
            let le : leb r.hash hash ≡ true = ground arith in
            let zero_less : upper hash refs - 0 ≡ upper hash refs = omega arith in
            let one_more : suc (upper hash refs) - 0 ≡ suc (upper hash refs) = omega arith in
            let rest =
              subst
                (λ ls.
                  take (upper hash refs - length ls) (drop (length ls) refs)
                  ≡ filter (has_hash hash) refs)
                none_below (slice-filter hash refs s.1) in
            let here = subst (λ n. take n refs ≡ filter (has_hash hash) refs) zero_less rest in
            rw (above, none_below, le, e, one_more) (ap (λ rs. r ∷ rs) here)
        | inr ne ↦
            let le : leb r.hash hash ≡ false = ground arith in
            let far : hash < r.hash = ground arith in
            let none_up =
              filter-Fails (λ r. leb r.hash hash) refs (beyond-Fails hash r.hash refs le s.0) in
            let none_eq = filter-Fails (has_hash hash) refs (no_hash hash r.hash refs far s.0) in
            rw (above, none_below, le, none_up, ne, none_eq) refl
      ]
]

-- What the two binary searches cut out of the sorted table: the references with the hash, by
-- ordinal.
pub slice-sort_refs :
    (hash : ℕ) (refs : List HciKeyRef)
    → Ascending refs
    → slice
        (sort_refs refs)
        (partition_point (λ r. ltb r.hash hash) (sort_refs refs))
        (partition_point (λ r. leb r.hash hash) (sort_refs refs))
      ≡ filter (has_hash hash) refs
slice-sort_refs hash refs a =
    let sorted = sort_refs-HashSorted refs in
    ap₂ (slice (sort_refs refs))
      (partition_point_lem (λ r. ltb r.hash hash) (sort_refs refs)
        (HashSorted-lt hash (sort_refs refs) sorted))
      (partition_point_lem (λ r. leb r.hash hash) (sort_refs refs)
        (HashSorted-le hash (sort_refs refs) sorted))
    ∙ slice-filter hash (sort_refs refs) sorted
    ∙ filter-sort_refs hash refs a
