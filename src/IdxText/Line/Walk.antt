-- ===== src/IdxText/Line/Walk.antt =====
-- The backward walk of `parse_index_line` by positions, and the fields that `parse_line` cuts.
use callbook_rs.Prelude.{
  true, false, Bool-cases, Option, [], ap, arith, drop, false, inl, inr, is_ascii_digit, is_empty,
  length, length-drop, none, not, refl, slice, some, suc, sym, take, zero, ℕ, ◌<◌, ◌==◌, ◌>>=◌,
  ◌||◌, ◌∙◌, ◌≡◌, ◌≤◌,
}
use callbook_rs.Prelude.Trim.{trim_end, take-trim_end, length-trim_end}
use callbook_rs.IdxText.Line.{
  LineParts, is_space, trim_ascii_trailing_spaces, line_fields, split_digits, ends_in_space,
  holds_at, walk_back, is_refused, index_entry, parse_index_line, TextIndexEntry, ℕ, Bytes,
  trim_end, Bool, last?, ◌∷◌, ◌≡◌, get_elem?, suc, if◌then◌else◌, length, ◌==◌, ◌-◌, ◌&&◌,
}

walk_back-cons :
    (p : ℕ → Bool) (x : ℕ) (xs : Bytes) (n : ℕ)
    → walk_back p (x ∷ xs) (suc n)
      ≡ (if walk_back p xs n == 0 && p x then 0 else suc (walk_back p xs n))
unfolding walk_back
walk_back-cons p x xs zero = ground arith
walk_back-cons p x xs (suc n) = elim (Bool-cases (holds_at p xs n)) [
  | inl e ↦ rw e (walk_back-cons p x xs n)
  | inr e ↦ rw e (ground arith)
]

-- From `n` the walk stops at the length of the first `n` elements without their trailing run.
walk_back-trim_end :
    (p : ℕ → Bool) (n : ℕ) (xs : Bytes)
    → n ≤ length xs
    → walk_back p xs n ≡ length (trim_end p (take n xs))
unfolding trim_end walk_back
walk_back-trim_end p zero xs h = refl
walk_back-trim_end p (suc n) [] h = absurd (omega (arith, h))
walk_back-trim_end p (suc n) (x ∷ xs) h =
    walk_back-cons p x xs n ∙ rw (walk_back-trim_end p n xs (omega (arith, h))) (ground arith)

take-length : (xs : Bytes) → take (length xs) xs ≡ xs
take-length [] = refl
take-length (x ∷ xs) = ap (λ t. x ∷ t) (take-length xs)

get_elem-take : (n i : ℕ) (xs : Bytes) → i < n → get_elem? (take n xs) i ≡ get_elem? xs i
get_elem-take zero i xs h = absurd (omega (arith, h))
get_elem-take (suc n) i [] h = refl
get_elem-take (suc n) zero (x ∷ xs) h = refl
get_elem-take (suc n) (suc i) (x ∷ xs) h = get_elem-take n i xs (omega (arith, h))

last-get_elem : (x : ℕ) (xs : Bytes) → last? (x ∷ xs) ≡ get_elem? (x ∷ xs) (length xs)
last-get_elem x [] = refl
last-get_elem x (y ∷ xs) = last-get_elem y xs

length_zero : (xs : Bytes) → (length xs == 0) ≡ is_empty xs
length_zero [] = refl
length_zero (x ∷ xs) = ground arith

-- Where `H` is the front of `T`: the element before its end, and what follows it.
ends_in_space-holds_at :
    (H T : Bytes)
    → take (length H) T ≡ H
    → is_empty H ≡ false
    → holds_at is_space T (length H - 1) ≡ ends_in_space H
ends_in_space-holds_at [] T lead ne = absurd (ground (arith, ne))
ends_in_space-holds_at (x ∷ xs) T lead ne =
    let at_last : get_elem? T (length (x ∷ xs) - 1) ≡ last? (x ∷ xs) =
      ap (get_elem? T) (omega arith)
      ∙ sym (get_elem-take (suc (length xs)) (length xs) T (omega arith))
      ∙ ap (λ t. get_elem? t (length xs)) lead
      ∙ sym (last-get_elem x xs) in
    ap (λ (o : Option ℕ). elim o [ none ↦ false | some b ↦ is_space b ]) at_last

slice-drop : (n : ℕ) (xs : Bytes) → slice xs n (length xs) ≡ drop n xs
slice-drop n xs = ap (λ m. take m (drop n xs)) (sym (length-drop n xs)) ∙ take-length (drop n xs)

is_refused-eq :
    (H T : Bytes)
    → take (length H) T ≡ H
    → length H ≤ length T
    → is_refused T (length H) (length T)
      ≡ (is_empty (drop (length H) T) || is_empty H || not (ends_in_space H))
is_refused-eq H T lead le =
    let same : (length H == length T) ≡ is_empty (drop (length H) T) =
      rw (sym (length_zero (drop (length H) T)), length-drop (length H) T) (ground arith) in
    elim (Bool-cases (is_empty H)) [
      | inl e ↦ rw (same, length_zero H, e) (ground arith)
      | inr e ↦ rw (same, length_zero H, ends_in_space-holds_at H T lead e) refl
    ]

-- The tests of `parse_index_line` in one, and those of `parse_line` one after the other.
guards :
    (a b c d : Bool) (parts : LineParts) (f : LineParts → Option TextIndexEntry)
    → (if a || b || c then none else if d then none else f parts) ≡ (
        (if a then none else if b then none else if c then none else if d then none else some parts)
        >>= f)
guards true b c d parts f = refl
guards false true c d parts f = refl
guards false false true d parts f = refl
guards false false false true parts f = refl
guards false false false false parts f = refl

-- The walks of `parse_index_line` give what `parse_line` cuts: the length of its key and its digits.
pub parse_index_line-line_fields :
    (start : ℕ) (l : Bytes)
    → parse_index_line start l
      ≡ (line_fields l >>= λ parts. index_entry start (length parts.head) parts.digits)
unfolding parse_index_line line_fields split_digits trim_ascii_trailing_spaces
parse_index_line-line_fields start l =
    let T = trim_end is_space l in
    let H = trim_end is_ascii_digit T in
    let lead = take-trim_end is_ascii_digit T in
    let le = length-trim_end is_ascii_digit T in
    let start_eq : walk_back is_ascii_digit T (length T) ≡ length H =
      walk_back-trim_end is_ascii_digit (length T) T (omega arith)
      ∙ ap (λ t. length (trim_end is_ascii_digit t)) (take-length T) in
    let key_eq : walk_back is_space T (length H) ≡ length (trim_end is_space H) =
      walk_back-trim_end is_space (length H) T le ∙ ap (λ t. length (trim_end is_space t)) lead in
    rw
      (
        start_eq,
        key_eq,
        is_refused-eq H T lead le,
        slice-drop (length H) T,
        length_zero (trim_end is_space H),
      )
      (guards (is_empty (drop (length H) T)) (is_empty H) (not (ends_in_space H))
        (is_empty (trim_end is_space H))
        (record { head = trim_end is_space H; digits = drop (length H) T })
        (λ parts. index_entry start (length parts.head) parts.digits))
