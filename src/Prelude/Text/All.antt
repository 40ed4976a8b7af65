-- ===== src/Prelude/Text/All.antt =====
-- What holds for the bytes of a text holds for the bytes of its parts.
use callbook_rs.Prelude.{
  All, All-append, Bool-cases, Bytes, List, Option, [], arith, drop, inl, inr, map,
  map_option-eq-some, none, refl, some, some-injective, subst, suc, take, zero, ℕ, ◌==◌, ◌∷◌, ◌≡◌,
}
use callbook_rs.Prelude.Trim.{trim-All}
use callbook_rs.Prelude.Text.{
  attach, chars, concat, is_whitespace, str_trim, cons_first, split_inclusive, strip_suffix,
  line_of, line_or, str_lines, starts_inside, or_self, trim,
}

module _ {κ} (P : ℕ → Type κ) where
  attach-All : (b : ℕ) (cs : List Bytes) → P b → All (All P) cs → All (All P) (attach b cs)
  attach-All b [] p h = ((p, tt), tt)
  attach-All b (c ∷ cs) p h = elim (Bool-cases (starts_inside c)) [
    | inl e ↦ rw e ((p, h.0), h.1)
    | inr e ↦ rw e ((p, tt), h)
  ]

  chars-All : (s : Bytes) → All P s → All (All P) (chars s)
  unfolding chars
  chars-All [] h = tt
  chars-All (b ∷ bs) h = attach-All b (chars bs) h.0 (chars-All bs h.1)

  concat-All : (cs : List Bytes) → All (All P) cs → All P (concat cs)
  unfolding concat
  concat-All [] h = tt
  concat-All (c ∷ cs) h = All-append P c (concat cs) h.0 (concat-All cs h.1)

  pub str_trim-All : (s : Bytes) → All P s → All P (str_trim s)
  unfolding str_trim
  str_trim-All s h =
      concat-All (trim is_whitespace (chars s))
        (trim-All is_whitespace (All P) (chars s) (chars-All s h))

  cons_first-All : (b : ℕ) (ls : List Bytes) → P b → All (All P) ls → All (All P) (cons_first b ls)
  cons_first-All b [] p h = ((p, tt), tt)
  cons_first-All b (l ∷ ls) p h = ((p, h.0), h.1)

  split_inclusive-All : (s : Bytes) → All P s → All (All P) (split_inclusive s)
  unfolding split_inclusive
  split_inclusive-All [] h = tt
  split_inclusive-All (b ∷ bs) h =
      let rest = split_inclusive-All bs h.1 in
      elim (Bool-cases (b == 0x0a)) [
        | inl e ↦ rw e ((h.0, tt), rest)
        | inr e ↦ rw e (cons_first-All b (split_inclusive bs) h.0 rest)
      ]

  strip_suffix-All : (b : ℕ) (s r : Bytes) → strip_suffix b s ≡ some r → All P s → All P r
  unfolding strip_suffix
  strip_suffix-All b [] r e h = absurd (ground (arith, e))
  strip_suffix-All b (x ∷ []) r e h = elim (Bool-cases (x == b)) [
    | inl f ↦ let same : some [] ≡ some r = rw f at e in subst (All P) (some-injective same) tt
    | inr f ↦ let no : none ≡ some r = rw f at e in absurd (ground arith)
  ]
  strip_suffix-All b (x ∷ y ∷ ys) r e h =
      let (more, found, is) = map_option-eq-some (λ t. x ∷ t) (strip_suffix b (y ∷ ys)) e in
      subst (All P) is (h.0, strip_suffix-All b (y ∷ ys) more found h.1)

  or_self-All :
      (b : ℕ) (s : Bytes) (found : Option Bytes)
      → strip_suffix b s ≡ found
      → All P s
      → All P (or_self s found)
  or_self-All b s none e h = h
  or_self-All b s (some r) e h = strip_suffix-All b s r e h

  line_or-All :
      (s : Bytes) (found : Option Bytes)
      → strip_suffix 0x0a s ≡ found
      → All P s
      → All P (line_or s found)
  line_or-All s none e h = h
  line_or-All s (some body) e h =
      or_self-All 0x0d body (strip_suffix 0x0d body) refl (strip_suffix-All 0x0a s body e h)

  map_line-All : (ls : List Bytes) → All (All P) ls → All (All P) (map line_of ls)
  map_line-All [] h = tt
  map_line-All (l ∷ ls) h = (line_or-All l (strip_suffix 0x0a l) refl h.0, map_line-All ls h.1)

  pub str_lines-All : (s : Bytes) → All P s → All (All P) (str_lines s)
  unfolding str_lines
  str_lines-All s h = map_line-All (split_inclusive s) (split_inclusive-All s h)

  pub take-All : (n : ℕ) (s : Bytes) → All P s → All P (take n s)
  take-All zero s h = tt
  take-All (suc n) [] h = tt
  take-All (suc n) (b ∷ bs) h = (h.0, take-All n bs h.1)

  pub drop-All : (n : ℕ) (s : Bytes) → All P s → All P (drop n s)
  drop-All zero s h = h
  drop-All (suc n) [] h = tt
  drop-All (suc n) (b ∷ bs) h = drop-All n bs h.1
