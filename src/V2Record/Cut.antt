-- ===== src/V2Record/Cut.antt =====
-- The loops visit the records between the marks.
use callbook_rs.Prelude.{
  Bool, Bool-cases, Bytes, List, Option, Option-cases, [], ap, arith, cons_some, drop, false,
  filter_map, if◌then◌else◌, inl, inr, length, length-drop, map_option, map_option-eq-some, none,
  position, refl, some, some-injective, subst, suc, sym, take, unwrap_or, zero, ℕ, ◌∙◌, ◌∷◌, ◌≡◌,
  ◌≤◌,
}
use callbook_rs.Prelude.Text.{concat}
use callbook_rs.Modern.Snapshot.{CallSnapshot}
use callbook_rs.V2Record.Segment.{is_mark, next_mark, visit_segments, visit_complete}

abbrev pub starts_mark : Bytes → Bool
starts_mark [] = false
starts_mark (b ∷ bs) = is_mark b

abbrev pub attach_mark : ℕ → List Bytes → List Bytes
attach_mark b [] = (b ∷ []) ∷ []
attach_mark b (c ∷ cs) = if starts_mark c then (b ∷ []) ∷ c ∷ cs else (b ∷ c) ∷ cs

-- The bytes cut in front of each mark.
unfoldable pub cut : Bytes → List Bytes
cut [] = []
cut (b ∷ bs) = attach_mark b (cut bs)

-- The last segment may be incomplete.
abbrev pub all_but_last : List Bytes → List Bytes
all_but_last [] = []
all_but_last (x ∷ []) = []
all_but_last (x ∷ y ∷ ys) = x ∷ all_but_last (y ∷ ys)

-- How many bytes stand before the next mark.
abbrev pub until_mark : Bytes → ℕ
until_mark bs = unwrap_or (position is_mark bs) (length bs)

until_mark-cons :
    (b : ℕ) (bs : Bytes) → is_mark b ≡ false → until_mark (b ∷ bs) ≡ suc (until_mark bs)
until_mark-cons b bs e = elim (Option-cases (position is_mark bs)) [
  | inl f ↦ rw (e, f) refl
  | inr (p, f) ↦ rw (e, f) refl
]

pub cut-cons :
    (b : ℕ) (bs : Bytes)
    → cut (b ∷ bs) ≡ (b ∷ take (until_mark bs) bs) ∷ cut (drop (until_mark bs) bs)
unfolding cut
cut-cons b [] = refl
cut-cons b (r ∷ rs) = elim (Bool-cases (is_mark r)) [
  | inl e ↦ rw (cut-cons r rs, e) (ap (λ c. (b ∷ []) ∷ c) (sym (cut-cons r rs)))
  | inr e ↦
      let n = until_mark rs in
      let here : attach_mark b ((r ∷ take n rs) ∷ cut (drop n rs))
          ≡ (b ∷ r ∷ take n rs) ∷ cut (drop n rs) =
        rw e refl in
      ap (attach_mark b) (cut-cons r rs)
      ∙ here
      ∙ ap (λ m. (b ∷ take m (r ∷ rs)) ∷ cut (drop m (r ∷ rs))) (sym (until_mark-cons r rs e))
]

next_mark-cons :
    (b : ℕ) (bs : Bytes) → next_mark (b ∷ bs) ≡ map_option (λ p. suc p) (position is_mark bs)
next_mark-cons b bs = elim (Bool-cases (is_mark b)) [
  | inl e ↦ elim (Option-cases (position is_mark bs)) [
    | inl f ↦ rw (e, f) refl
    | inr (p, f) ↦ rw (e, f) (ap some (omega arith))
  ]
  | inr e ↦ elim (Option-cases (position is_mark bs)) [
    | inl f ↦ rw (e, e, f) refl
    | inr (p, f) ↦ rw (e, e, f) (ap some (omega arith))
  ]
]

drop-position :
    (bs : Bytes) (p : ℕ)
    → position is_mark bs ≡ some p
    → (c : ℕ) × (cs : Bytes) × (drop p bs ≡ c ∷ cs)
drop-position [] p h = absurd (ground (arith, h))
drop-position (b ∷ bs) p h = elim (Bool-cases (is_mark b)) [
  | inl e ↦
      let same : some 0 ≡ some p = rw e at h in
      (b, bs, ap (λ n. drop n (b ∷ bs)) (sym (some-injective same)))
  | inr e ↦
      let later : map_option suc (position is_mark bs) ≡ some p = rw e at h in
      let (q, found, is) = map_option-eq-some suc (position is_mark bs) later in
      let (c, cs, rest) = drop-position bs q found in
      (c, cs, ap (λ n. drop n (b ∷ bs)) (sym is) ∙ rest)
]

next_end :
    (b : ℕ) (bs : Bytes) → unwrap_or (next_mark (b ∷ bs)) (length (b ∷ bs)) ≡ suc (until_mark bs)
next_end b bs =
    rw (next_mark-cons b bs)
      (elim (Option-cases (position is_mark bs)) [ inl f ↦ rw f refl | inr (p, f) ↦ rw f refl ])

length-rest : (n fuel : ℕ) (bs : Bytes) → suc (length bs) ≤ suc fuel → length (drop n bs) ≤ fuel
length-rest n fuel bs h = omega (arith, length-drop n bs)

pub visit_segments-cut :
    (visit : Bytes → Option CallSnapshot) (fuel : ℕ) (d : Bytes)
    → length d ≤ fuel
    → visit_segments visit fuel d ≡ filter_map visit (cut d)
unfolding visit_segments cut
visit_segments-cut visit zero [] h = refl
visit_segments-cut visit zero (b ∷ bs) h = absurd (omega (arith, h))
visit_segments-cut visit (suc fuel) [] h = refl
visit_segments-cut visit (suc fuel) (b ∷ bs) h =
    let n = until_mark bs in
    let rest = visit_segments-cut visit fuel (drop n bs) (length-rest n fuel bs h) in
    let step : visit_segments visit (suc fuel) (b ∷ bs)
        ≡ cons_some (visit (b ∷ take n bs)) (visit_segments visit fuel (drop n bs)) =
      ap (λ m. cons_some (visit (take m (b ∷ bs))) (visit_segments visit fuel (drop m (b ∷ bs))))
        (next_end b bs) in
    step ∙ ap (cons_some (visit (b ∷ take n bs))) rest ∙ ap (filter_map visit) (sym (cut-cons b bs))

all_but_last-cons :
    (x : Bytes) (c : ℕ) (cs : Bytes)
    → all_but_last (x ∷ cut (c ∷ cs)) ≡ x ∷ all_but_last (cut (c ∷ cs))
all_but_last-cons x c cs = rw (cut-cons c cs) refl

visit_complete-end :
    (visit : Bytes → Option CallSnapshot) (fuel b : ℕ) (bs : Bytes)
    → position is_mark bs ≡ none
    → visit_complete visit (suc fuel) (b ∷ bs) ≡ []
unfolding visit_complete
visit_complete-end visit fuel b bs e =
    let next : next_mark (b ∷ bs) ≡ none = next_mark-cons b bs ∙ ap (map_option (λ p. suc p)) e in
    rw next refl

visit_complete-step :
    (visit : Bytes → Option CallSnapshot) (fuel b : ℕ) (bs : Bytes) (p : ℕ)
    → position is_mark bs ≡ some p
    → visit_complete visit (suc fuel) (b ∷ bs)
      ≡ cons_some (visit (b ∷ take p bs)) (visit_complete visit fuel (drop p bs))
unfolding visit_complete
visit_complete-step visit fuel b bs p e =
    let next : next_mark (b ∷ bs) ≡ some (suc p) =
      next_mark-cons b bs ∙ ap (map_option (λ p. suc p)) e in
    rw next refl

drop-end : (bs : Bytes) → drop (length bs) bs ≡ []
drop-end [] = refl
drop-end (b ∷ bs) = drop-end bs

pub visit_complete-cut :
    (visit : Bytes → Option CallSnapshot) (fuel : ℕ) (d : Bytes)
    → length d ≤ fuel
    → visit_complete visit fuel d ≡ filter_map visit (all_but_last (cut d))
unfolding visit_complete cut
visit_complete-cut visit zero [] h = refl
visit_complete-cut visit zero (b ∷ bs) h = absurd (omega (arith, h))
visit_complete-cut visit (suc fuel) [] h = refl
visit_complete-cut visit (suc fuel) (b ∷ bs) h = elim (Option-cases (position is_mark bs)) [
  | inl e ↦
      let last : until_mark bs ≡ length bs = ap (λ o. unwrap_or o (length bs)) e in
      let one : cut (b ∷ bs) ≡ (b ∷ take (length bs) bs) ∷ [] =
        cut-cons b bs
        ∙ ap (λ n. (b ∷ take n bs) ∷ cut (drop n bs)) last
        ∙ ap (λ r. (b ∷ take (length bs) bs) ∷ cut r) (drop-end bs) in
      visit_complete-end visit fuel b bs e ∙ ap (λ c. filter_map visit (all_but_last c)) (sym one)
  | inr (p, e) ↦
      let at : until_mark bs ≡ p = ap (λ o. unwrap_or o (length bs)) e in
      let first = b ∷ take p bs in
      let (c, cs, rest) = drop-position bs p e in
      let more : cut (b ∷ bs) ≡ first ∷ cut (drop p bs) =
        cut-cons b bs ∙ ap (λ n. (b ∷ take n bs) ∷ cut (drop n bs)) at in
      let split : all_but_last (first ∷ cut (drop p bs)) ≡ first ∷ all_but_last (cut (drop p bs)) =
        subst (λ r. all_but_last (first ∷ cut r) ≡ first ∷ all_but_last (cut r)) (sym rest)
          (all_but_last-cons first c cs) in
      visit_complete-step visit fuel b bs p e
      ∙ ap (cons_some (visit first))
          (visit_complete-cut visit fuel (drop p bs) (length-rest p fuel bs h))
      ∙ ap (filter_map visit) (sym (ap all_but_last more ∙ split))
]

pub concat-cut : (d : Bytes) → concat (cut d) ≡ d
unfolding concat cut
concat-cut [] = refl
concat-cut (b ∷ bs) = concat_attach b (cut bs) ∙ ap (λ r. b ∷ r) (concat-cut bs)
  where
    concat_attach : (x : ℕ) (cs : List Bytes) → concat (attach_mark x cs) ≡ x ∷ concat cs
    concat_attach x [] = refl
    concat_attach x (c ∷ cs) = elim (Bool-cases (starts_mark c)) [
      | inl e ↦ rw e refl
      | inr e ↦ rw e refl
    ]
