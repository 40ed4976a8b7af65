-- ===== src/Modern/Tags/Again.antt =====
-- A union with the same map twice, and with the empty map.
use callbook_rs.Prelude.{
  All, Bool-cases, List, [], ap, arith, false, inl, inr, ltb, refl, subst, sym, ◌++◌, ◌<◌, ◌==◌,
  ◌∙◌, ◌∷◌, ◌≡◌, ◌⊎◌,
}
use callbook_rs.Modern.Snapshot.{Tag}
use callbook_rs.Modern.Tags.{insert, extend}
use callbook_rs.Modern.Tags.Lookup.{Below, TagsSorted}

-- A map in order has the tag with that value.
abbrev Has : Tag → List Tag → Type 0
Has t [] = ⊥
Has t (u ∷ us) = (t ≡ u) ⊎ ((u.tag < t.tag) × Has t us)

insert_after : (t u : Tag) (us : List Tag) → u.tag < t.tag → insert t (u ∷ us) ≡ u ∷ insert t us
unfolding insert
insert_after t u us lt =
    let ge : ltb t.tag u.tag ≡ false = ground arith in
    let ne : (t.tag == u.tag) ≡ false = ground arith in rw (ge, ne) refl

insert_here : (t : Tag) (us : List Tag) → insert t (t ∷ us) ≡ t ∷ us
unfolding insert
insert_here t us = ground arith

insert_present : (t : Tag) (us : List Tag) → Has t us → insert t us ≡ us
insert_present t [] h = absurd h
insert_present t (u ∷ us) (inl e) = subst (λ v. insert t (v ∷ us) ≡ v ∷ us) e (insert_here t us)
insert_present t (u ∷ us) (inr (lt, h)) =
    insert_after t u us lt ∙ ap (λ r. u ∷ r) (insert_present t us h)

insert-Has : (t : Tag) (us : List Tag) → Has t (insert t us)
unfolding insert
insert-Has t [] = inl refl
insert-Has t (u ∷ us) = elim (Bool-cases (ltb t.tag u.tag)) [
  | inl lt ↦ rw lt (inl refl)
  | inr ge ↦ elim (Bool-cases (t.tag == u.tag)) [
    | inl e ↦ rw (ge, e) (inl refl)
    | inr ne ↦ let h : u.tag < t.tag = ground arith in rw (ge, ne) (inr (h, insert-Has t us))
  ]
]

Has-insert : (t v : Tag) (us : List Tag) → t.tag < v.tag → Has t us → Has t (insert v us)
Has-insert t v [] lt h = absurd h
Has-insert t v (u ∷ us) lt (inl e) =
    let after : u.tag < v.tag = subst (λ w. w.tag < v.tag) e lt in
    subst (Has t) (sym (insert_after v u us after)) (inl e)
Has-insert t v (u ∷ us) lt (inr (before, h)) =
    subst (Has t) (sym (insert_after v u us (omega arith))) (inr (before, Has-insert t v us lt h))

Has-extend : (t : Tag) (us ts : List Tag) → Below t.tag ts → Has t us → Has t (extend us ts)
unfolding extend
Has-extend t us [] b h = h
Has-extend t us (v ∷ ts) b h = Has-extend t (insert v us) ts b.1 (Has-insert t v us b.0 h)

extend_same : (us ts : List Tag) → All (λ t. Has t us) ts → extend us ts ≡ us
unfolding extend
extend_same us [] h = refl
extend_same us (t ∷ ts) h = ap (λ m. extend m ts) (insert_present t us h.0) ∙ extend_same us ts h.1

All-Has-extend : (us ts : List Tag) → TagsSorted ts → All (λ t. Has t (extend us ts)) ts
unfolding extend
All-Has-extend us [] s = tt
All-Has-extend us (t ∷ ts) s =
    (Has-extend t (insert t us) ts s.0 (insert-Has t us), All-Has-extend (insert t us) ts s.1)

pub extend-extend : (us ts : List Tag) → TagsSorted ts → extend (extend us ts) ts ≡ extend us ts
extend-extend us ts s = extend_same (extend us ts) ts (All-Has-extend us ts s)

insert_last : (us : List Tag) (t : Tag) → All (λ u. u.tag < t.tag) us → insert t us ≡ us ++ (t ∷ [])
unfolding insert
insert_last [] t h = refl
insert_last (u ∷ us) t h =
    let ge : ltb t.tag u.tag ≡ false = ground (arith, h.0) in
    let ne : (t.tag == u.tag) ≡ false = ground (arith, h.0) in
    rw (ge, ne) (ap (λ r. u ∷ r) (insert_last us t h.1))

abbrev Above : List Tag → List Tag → Type 0
Above us ts = All (λ u. Below u.tag ts) us

Above-first :
    (us : List Tag) (t : Tag) (ts : List Tag) → Above us (t ∷ ts) → All (λ u. u.tag < t.tag) us
Above-first [] t ts h = tt
Above-first (u ∷ us) t ts h = (h.0.0, Above-first us t ts h.1)

Above-rest :
    (us : List Tag) (t : Tag) (ts : List Tag)
    → Above us (t ∷ ts)
    → Below t.tag ts
    → Above (us ++ (t ∷ [])) ts
Above-rest [] t ts h b = (b, tt)
Above-rest (u ∷ us) t ts h b = (h.0.1, Above-rest us t ts h.1 b)

append_assoc : (us : List Tag) (t : Tag) (ts : List Tag) → (us ++ (t ∷ [])) ++ ts ≡ us ++ (t ∷ ts)
append_assoc [] t ts = refl
append_assoc (u ∷ us) t ts = ap (λ r. u ∷ r) (append_assoc us t ts)

append_nil : (us : List Tag) → us ++ [] ≡ us
append_nil [] = refl
append_nil (u ∷ us) = ap (λ r. u ∷ r) (append_nil us)

extend-Above : (us ts : List Tag) → TagsSorted ts → Above us ts → extend us ts ≡ us ++ ts
unfolding extend
extend-Above us [] s a = sym (append_nil us)
extend-Above us (t ∷ ts) s a =
    ap (λ m. extend m ts) (insert_last us t (Above-first us t ts a))
    ∙ extend-Above (us ++ (t ∷ [])) ts s.1 (Above-rest us t ts a s.0)
    ∙ append_assoc us t ts

pub extend-nil : (ts : List Tag) → TagsSorted ts → extend [] ts ≡ ts
extend-nil ts s = extend-Above [] ts s tt
