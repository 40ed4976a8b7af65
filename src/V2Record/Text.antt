-- ===== src/V2Record/Text.antt =====
-- The text helpers of v2_record.rs: trimming, keys and the comparison without case.
use callbook_rs.Prelude.{
  Bool, Bytes, Option, [], all, eq_ignore_ascii_case, is_ascii_digit, is_ascii_graphic,
  is_ascii_uppercase, is_ascii_whitespace, is_empty, leb, length, map_option, none, not, some,
  then_some, true, ℕ, ◌&&◌, ◌==◌, ◌||◌, ◌∷◌,
}
use callbook_rs.Prelude.Trim.{trim}
use callbook_rs.Prelude.Text.{split_once, head_before}
use callbook_rs.Decimal.{parse_uint}

-- Whitespace or NUL.
unfoldable pub is_padding : ℕ → Bool
unfolding is_ascii_whitespace
is_padding b = is_ascii_whitespace b || b == 0

-- A tag of a field.
abbrev pub is_tag : ℕ → Bool
is_tag b = leb 0xb6 b && leb b 0xdf

-- A tag or the mark of a record.
abbrev pub ends_value : ℕ → Bool
ends_value b = leb 0xb5 b && leb b 0xdf

unfoldable pub is_printable : ℕ → Bool
unfolding is_ascii_graphic
is_printable b = is_ascii_graphic b || b == b' '

unfoldable pub trim_ascii : Bytes → Bytes
trim_ascii bytes = trim is_padding bytes

-- The text of printable bytes is the bytes themselves.
unfoldable pub clean_ascii : Bytes → Option Bytes
unfolding trim_ascii is_printable
clean_ascii bytes = then_some (all is_printable (trim_ascii bytes)) (trim_ascii bytes)

unfoldable pub is_key_char : ℕ → Bool
unfolding is_ascii_uppercase is_ascii_digit
is_key_char b = is_ascii_uppercase b || is_ascii_digit b || b == b'/'

unfoldable pub looks_like_key : Bytes → Bool
unfolding head_before is_key_char
looks_like_key key =
    let call = head_before b':' key in
    not (is_empty call) && leb (length call) 12 && all is_key_char call

abbrev pub split_parts : Bytes → Option (Bytes × Bytes) → Option (Bytes × Option ℕ)
split_parts key none = some (key, none)
split_parts key (some (call, vintage)) =
    map_option (λ year. (call, some year)) (parse_uint 16 vintage)

unfoldable pub split_key : Bytes → Option (Bytes × Option ℕ)
unfolding split_once parse_uint
split_key key = split_parts key (split_once b':' key)

-- `zip` with `all`.
unfoldable pub all_equal : Bytes → Bytes → Bool
unfolding eq_ignore_ascii_case
all_equal [] right = true
all_equal (l ∷ left) [] = true
all_equal (l ∷ left) (r ∷ right) = eq_ignore_ascii_case l r && all_equal left right

unfoldable pub ascii_eq_ignore_case : Bytes → Bytes → Bool
unfolding all_equal
ascii_eq_ignore_case left right = length left == length right && all_equal left right
