-- ===== src/Modern/Tags/Lookup.antt =====
-- Looking a tag up after an insertion and after a union.
use callbook_rs.Prelude.{
  All, Bool-cases, List, Option, [], arith, if◌then◌else◌, inl, inr, ltb, none, refl, some, ℕ, ◌<◌,
  ◌==◌, ◌≡◌,
}
use callbook_rs.Modern.Snapshot.{Tag}
use callbook_rs.Modern.Tags.{insert, extend, get, ◌∷◌}

abbrev pub Below : ℕ → List Tag → Type 0
Below n ts = All (λ u. n < u.tag) ts

-- The order in which a map keeps its entries.
abbrev pub TagsSorted : List Tag → Type 0
TagsSorted [] = Unit
TagsSorted (t ∷ ts) = Below t.tag ts × TagsSorted ts

abbrev pub or_else {ℓ} : {A : Type ℓ} → Option A → Option A → Option A
or_else none b = b
or_else (some a) b = some a

get-insert :
    (n : ℕ) (t : Tag) (us : List Tag)
    → get n (insert t us) ≡ (if n == t.tag then some t.value else get n us)
unfolding get insert
get-insert n t [] = refl
get-insert n t (u ∷ us) = ground (arith, get-insert n t us)

get-Below : (n : ℕ) (ts : List Tag) → Below n ts → get n ts ≡ none
unfolding get
get-Below n [] h = refl
get-Below n (t ∷ ts) h = ground (arith, get-Below n ts h.1)

-- In a union the second map wins.
pub get-extend :
    (n : ℕ) (tags ts : List Tag)
    → TagsSorted ts
    → get n (extend tags ts) ≡ or_else (get n ts) (get n tags)
unfolding get extend
get-extend n tags [] s = refl
get-extend n tags (t ∷ ts) s = elim (Bool-cases (n == t.tag)) [
  | inl e ↦
      let same : n ≡ t.tag = ground arith in
      let gone : get n ts ≡ none = get-Below n ts (rw same s.0) in
      rw (get-extend n (insert t tags) ts s.1, gone, get-insert n t tags, e) refl
  | inr e ↦ rw (get-extend n (insert t tags) ts s.1, get-insert n t tags, e) refl
]

Below-insert : (n : ℕ) (t : Tag) (us : List Tag) → n < t.tag → Below n us → Below n (insert t us)
unfolding insert
Below-insert n t [] h b = (h, tt)
Below-insert n t (u ∷ us) h b = ground (arith, Below-insert n t us h b.1)

Below-trans : (n m : ℕ) (us : List Tag) → n < m → Below m us → Below n us
Below-trans n m [] h b = tt
Below-trans n m (u ∷ us) h b = (omega (arith, b.0), Below-trans n m us h b.1)

insert-TagsSorted : (t : Tag) (us : List Tag) → TagsSorted us → TagsSorted (insert t us)
unfolding insert
insert-TagsSorted t [] s = (tt, tt)
insert-TagsSorted t (u ∷ us) s = elim (Bool-cases (ltb t.tag u.tag)) [
  | inl lt ↦
      let h : t.tag < u.tag = ground arith in rw lt ((h, Below-trans t.tag u.tag us h s.0), s)
  | inr ge ↦ elim (Bool-cases (t.tag == u.tag)) [
    | inl e ↦ let same : t.tag ≡ u.tag = ground arith in rw (ge, e) (rw same s.0, s.1)
    | inr ne ↦
        let h : u.tag < t.tag = ground arith in
        rw (ge, ne) (Below-insert u.tag t us h s.0, insert-TagsSorted t us s.1)
  ]
]

pub extend-TagsSorted : (tags ts : List Tag) → TagsSorted tags → TagsSorted (extend tags ts)
unfolding extend
extend-TagsSorted tags [] s = s
extend-TagsSorted tags (t ∷ ts) s =
    extend-TagsSorted (insert t tags) ts (insert-TagsSorted t tags s)
