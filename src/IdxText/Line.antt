-- ===== src/IdxText/Line.antt =====
-- One line of the index: `parse_line` of the iterator and `parse_index_line` of the table.
pub mod Walk
pub mod Fields
use callbook_rs.Prelude.{
  Bool, Bytes, Option, [], codes, drop, false, get_elem?, if◌then◌else◌, is_ascii_digit, is_empty,
  last?, length, ltb, map_option, none, not, refl, slice, some, suc, then_some, zero, ℕ, ◌&&◌, ◌*◌,
  ◌+◌, ◌-◌, ◌==◌, ◌>>=◌, ◌^◌, ◌||◌, ◌∷◌, ◌≡◌,
}
use callbook_rs.Prelude.Trim.{trim_end}
use callbook_rs.Decimal.{parse_uint}

-- An entry with its key borrowed from the file.
pub record TextEntry : Type 0 where
  pub key : Bytes
  pub dat_offset : ℕ

-- An entry of the table built on open; `key_start`, `line_start` are `u32` and `key_len` is `u16`.
pub record TextIndexEntry : Type 0 where
  pub key_start : ℕ
  pub key_len : ℕ
  pub line_start : ℕ
  pub dat_offset : ℕ

abbrev pub is_space : ℕ → Bool
is_space b = b == b' '

unfoldable pub trim_ascii_trailing_spaces : Bytes → Bytes
trim_ascii_trailing_spaces = trim_end is_space

-- The backward walk of `parse_line` over trailing digits stops at `digit_start`: `head` is what stands before it,
-- and `digits` what stands from it on.
pub record LineParts : Type 0 where
  pub head : Bytes
  pub digits : Bytes

unfoldable pub split_digits : Bytes → LineParts
split_digits trimmed =
    let head = trim_end is_ascii_digit trimmed in
    record { head = head; digits = drop (length head) trimmed }

-- `trimmed[i - 1] == b' '` where `i > 0`.
abbrev pub ends_in_space : Bytes → Bool
ends_in_space head = elim (last? head) [ none ↦ false | some b ↦ is_space b ]

-- The key and the digits of a line, or the early returns of `parse_line`: no digits, nothing
-- before the digits, no space there, or an empty key.
unfoldable pub line_fields : Bytes → Option LineParts
unfolding trim_ascii_trailing_spaces split_digits
line_fields line =
    let parts = split_digits (trim_ascii_trailing_spaces line) in
    let key = trim_end is_space parts.head in
    if is_empty parts.digits
    then none
    else if is_empty parts.head
    then none
    else if not (ends_in_space parts.head)
    then none
    else if is_empty key
    then none
    else some (record parts { head = key })

-- `parse_line` reads the digits by `str::parse::<u64>`.
unfoldable pub parse_line : Bytes → Option TextEntry
unfolding line_fields parse_uint
parse_line line = do
  parts ← line_fields line
  dat_offset ← parse_uint 64 parts.digits
  some (record { key = parts.head; dat_offset = dat_offset })

-- `checked_mul` and `checked_add` of `u64`.
abbrev pub checked_u64 : ℕ → Option ℕ
checked_u64 n = then_some (ltb n (2 ^ 64)) n

unfoldable pub decimal_loop : ℕ → Bytes → Option ℕ
decimal_loop out [] = some out
decimal_loop out (byte ∷ bytes) =
    let rest = λ (n : ℕ). decimal_loop n bytes in
    if not (is_ascii_digit byte)
    then none
    else (do tens ← checked_u64 (out * 10); n ← checked_u64 (tens + (byte - b'0')); rest n)

unfoldable pub parse_decimal_u64 : Bytes → Option ℕ
unfolding decimal_loop is_ascii_digit
parse_decimal_u64 bytes = decimal_loop 0 bytes

-- `try_into` to an unsigned integer of `w` bits.
abbrev pub try_into : ℕ → ℕ → Option ℕ
try_into w n = then_some (ltb n (2 ^ w)) n

-- `xs[i]` is in range and passes the test.
abbrev pub holds_at : (ℕ → Bool) → Bytes → ℕ → Bool
holds_at p xs i = elim (get_elem? xs i) [ none ↦ false | some b ↦ p b ]

-- `while i > 0 && p(xs[i - 1]) { i -= 1 }`, and the `i` it stops at.
unfoldable pub walk_back : (ℕ → Bool) → Bytes → ℕ → ℕ
walk_back p xs zero = 0
walk_back p xs (suc i) = let rest = walk_back p xs i in if holds_at p xs i then rest else suc i

-- The early return after the walk over the digits.
abbrev pub is_refused : Bytes → ℕ → ℕ → Bool
is_refused trimmed digit_start digit_end =
    digit_start == digit_end
    || digit_start == 0
    || not (holds_at is_space trimmed (digit_start - 1))

-- The entry of a key that ends at `key_end` and of these digits.
abbrev pub index_entry : ℕ → ℕ → Bytes → Option TextIndexEntry
index_entry line_start key_end digits = do
  dat_offset ← parse_decimal_u64 digits
  key_start ← try_into 32 line_start
  key_len ← try_into 16 key_end
  start ← try_into 32 line_start
  some (record {
    key_start = key_start;
    key_len = key_len;
    line_start = start;
    dat_offset = dat_offset;
  })

-- `parse_index_line` walks over the line by positions and makes no key slice.
unfoldable pub parse_index_line : ℕ → Bytes → Option TextIndexEntry
unfolding trim_ascii_trailing_spaces walk_back parse_decimal_u64
parse_index_line line_start line =
    let trimmed = trim_ascii_trailing_spaces line in
    let digit_end = length trimmed in
    let digit_start = walk_back is_ascii_digit trimmed digit_end in
    let key_end = walk_back is_space trimmed digit_start in
    if is_refused trimmed digit_start digit_end
    then none
    else if key_end == 0
    then none
    else index_entry line_start key_end (slice trimmed digit_start digit_end)

-- `windows(2).position(|w| w == b"\r\n")`.
unfoldable pub find_crlf : Bytes → Option ℕ
find_crlf [] = none
find_crlf (b ∷ []) = none
find_crlf (b ∷ c ∷ rest) =
    let later = find_crlf (c ∷ rest) in
    if b == 0x0d && c == 0x0a then some 0 else map_option (λ i. suc i) later
