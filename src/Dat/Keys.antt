-- ===== src/Dat/Keys.antt =====
-- The keys with a year, and the parser of such keys in v2_record.rs.
use callbook_rs.Prelude.{
  All, Bool, Bytes, [], ap, arith, false, is_ascii_digit, length, ltb, refl, some, ℕ, ◌%◌, ◌*◌,
  ◌++◌, ◌+◌, ◌/◌, ◌<◌, ◌==◌, ◌∙◌, ◌∷◌, ◌≡◌, ◌≤◌,
}
use callbook_rs.Prelude.Trim.{Fails}
use callbook_rs.Prelude.Text.{split_once}
use callbook_rs.Decimal.{parse_uint, scan_digits}
use callbook_rs.V2Record.Text.{split_key}
use callbook_rs.Dat.Query.{hci_archive_key, year_digits}

abbrev pub is_colon : ℕ → Bool
is_colon b = b == b':'

split_once-append :
    (call rest : Bytes)
    → All (Fails is_colon) call
    → split_once b':' (call ++ (b':' ∷ rest)) ≡ some (call, rest)
unfolding split_once
split_once-append [] rest h = refl
split_once-append (b ∷ call) rest h = rw (h.0, split_once-append call rest h.1) refl

parse_uint-digits :
    (a b c d : ℕ)
    → a < 10
    → b < 10
    → c < 10
    → d < 10
    → parse_uint 16 ((b'0' + a) ∷ (b'0' + b) ∷ (b'0' + c) ∷ (b'0' + d) ∷ [])
      ≡ some (((a * 10 + b) * 10 + c) * 10 + d)
unfolding parse_uint scan_digits is_ascii_digit
parse_uint-digits a b c d ha hb hc hd = ground arith

parse_uint-year_digits : (year : ℕ) → year < 10000 → parse_uint 16 (year_digits year) ≡ some year
parse_uint-year_digits year h =
    let a = year / 1000 % 10 in
    let b = year / 100 % 10 in
    let c = year / 10 % 10 in
    let d = year % 10 in
    let sum : ((a * 10 + b) * 10 + c) * 10 + d ≡ year = omega (arith, h) in
    parse_uint-digits a b c d (omega arith) (omega arith) (omega arith) (omega arith) ∙ ap some sum

-- A key that `hci_archive_key` writes for a call without a colon and a year of at most four digits is
-- read by `split_key` as that call and that year; it is written when the call has at most 27 bytes.
pub split_key-hci_archive_key :
    (call : Bytes) (year : ℕ)
    → All (Fails is_colon) call
    → length call ≤ 27
    → year < 10000
    → (key : Bytes) × (hci_archive_key call year ≡ some key)
      × (split_key key ≡ some (call, some year))
unfolding hci_archive_key split_key
split_key-hci_archive_key call year plain short small =
    let fits : ltb 32 (length call + 5) ≡ false = ground (arith, short) in
    (
      call ++ (b':' ∷ year_digits year),
      rw fits refl,
      rw (split_once-append call (year_digits year) plain, parse_uint-year_digits year small) refl,
    )
