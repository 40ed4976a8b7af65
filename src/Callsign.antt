-- ===== src/Callsign.antt =====
-- crates/callbook/src/callsign.rs, with `KEY_LEN` of crates/callbook/src/format.rs: the normalised
-- key of a callsign.
pub mod Parse
use callbook_rs.Prelude.{
  ℕ, zero, suc, Bytes, Bool, List, [], ◌∷◌, Option, none, some, ◌||◌, ◌==◌, ltb, if◌then◌else◌,
  bit_and, length, is_empty, replicate, map_option, is_ascii_digit, is_ascii_uppercase,
  is_ascii_lowercase, is_ascii_whitespace,
}
use callbook_rs.Prelude.Trim.{trim, trim_end}
use callbook_rs.Error.{Result, ok, err, invalid_callsign}

abbrev pub key_len : ℕ
key_len = 26

-- The 26 bytes of the key.
pub record Callsign : Type 0 where
  pub key : Bytes

-- `b & !0x20` clears the bit in which the two cases differ.
unfoldable pub ascii_upper : ℕ → ℕ
unfolding is_ascii_lowercase
ascii_upper b = if is_ascii_lowercase b then bit_and b 0xdf else b

unfoldable pub is_callsign_char : ℕ → Bool
unfolding is_ascii_uppercase is_ascii_digit
is_callsign_char b = is_ascii_uppercase b || is_ascii_digit b || b == b'/'

-- The two `while let` loops drop whitespace from the front and then from the back.
unfoldable pub strip_ascii_whitespace : Bytes → Bytes
strip_ascii_whitespace = trim is_ascii_whitespace

-- The `for` loop of `parse`, over `out` zipped with the trimmed input; `none` is the early return.
unfoldable pub fill_key : Bytes → Bytes → Option Bytes
unfolding ascii_upper is_callsign_char
fill_key [] src = some []
fill_key (dst ∷ out) [] = some (dst ∷ out)
fill_key (dst ∷ out) (b ∷ src) =
    let c = ascii_upper b in
    let rest = fill_key out src in if is_callsign_char c then map_option (λ r. c ∷ r) rest else none

abbrev pub or_invalid : Bytes → Option Bytes → Result Callsign
or_invalid input none = err (invalid_callsign input)
or_invalid input (some key) = ok (record { key = key })

-- The body of `parse` on the trimmed input.
unfoldable pub parse_trimmed : Bytes → Bytes → Result Callsign
parse_trimmed input trimmed =
    if is_empty trimmed
    then err (invalid_callsign input)
    else if ltb key_len (length trimmed)
    then err (invalid_callsign input)
    else or_invalid input (fill_key (replicate key_len b' ') trimmed)

unfoldable pub parse : Bytes → Result Callsign
unfolding parse_trimmed
parse input = parse_trimmed input (strip_ascii_whitespace input)

abbrev pub as_bytes : Callsign → Bytes
as_bytes c = c.key

-- The key up to its last byte that is not a space.
unfoldable pub as_str : Callsign → Bytes
as_str c = trim_end (λ b. b == b' ') c.key
