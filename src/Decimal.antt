-- ===== src/Decimal.antt =====
-- Decimal numbers as `str::parse` reads them into an unsigned integer of `w` bits: an optional '+'
-- and one or more digits, refused where the value does not fit.
use callbook_rs.Prelude.{
  Bool-cases, Bytes, Option, [], arith, if◌then◌else◌, inl, is_ascii_digit, is_empty, ltb, ltb→lt,
  none, some, some-injective, subst, suc, zero, ℕ, ◌*◌, ◌+◌, ◌-◌, ◌<◌, ◌==◌, ◌^◌, ◌∷◌, ◌≡◌, inr,
}

unfoldable pub scan_digits : ℕ → ℕ → Bytes → Option ℕ
scan_digits w acc [] = some acc
scan_digits w acc (b ∷ bs) =
    let n = acc * 10 + (b - b'0') in
    let rest = scan_digits w n bs in
    if is_ascii_digit b then (if ltb n (2 ^ w) then rest else none) else none

unfoldable pub parse_uint : ℕ → Bytes → Option ℕ
unfolding scan_digits is_ascii_digit
parse_uint w [] = none
parse_uint w (b ∷ bs) =
    if b == b'+'
    then (if is_empty bs then none else scan_digits w 0 bs)
    else scan_digits w 0 (b ∷ bs)

power : (w : ℕ) → 0 < 2 ^ w
power zero = omega arith
power (suc w) = omega (arith, power w)

lt-scan_digits :
    (w acc : ℕ) (bs : Bytes) (n : ℕ) → acc < 2 ^ w → scan_digits w acc bs ≡ some n → n < 2 ^ w
unfolding scan_digits
lt-scan_digits w acc [] n h e = subst (λ k. k < 2 ^ w) (some-injective e) h
lt-scan_digits w acc (b ∷ bs) n h e =
    let next = acc * 10 + (b - b'0') in
    elim (Bool-cases (is_ascii_digit b)) [
      | inl d ↦ elim (Bool-cases (ltb next (2 ^ w))) [
        | inl f ↦ lt-scan_digits w next bs n (ltb→lt next (2 ^ w) f) (rw (d, f) at e)
        | inr f ↦ let no : none ≡ some n = rw (d, f) at e in absurd (ground arith)
      ]
      | inr d ↦ let no : none ≡ some n = rw d at e in absurd (ground arith)
    ]

pub lt-parse_uint : (w : ℕ) (bs : Bytes) (n : ℕ) → parse_uint w bs ≡ some n → n < 2 ^ w
unfolding parse_uint
lt-parse_uint w [] n e = absurd (ground (arith, e))
lt-parse_uint w (b ∷ bs) n e = elim (Bool-cases (b == b'+')) [
  | inl plus ↦ elim (Bool-cases (is_empty bs)) [
    | inl f ↦ let no : none ≡ some n = rw (plus, f) at e in absurd (ground arith)
    | inr f ↦ lt-scan_digits w 0 bs n (power w) (rw (plus, f) at e)
  ]
  | inr digits ↦ lt-scan_digits w 0 (b ∷ bs) n (power w) (rw digits at e)
]
