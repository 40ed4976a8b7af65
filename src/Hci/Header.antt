-- ===== src/Hci/Header.antt =====
-- The encoded header of a record: its search key, ended by the byte 0xb5.
pub mod Match
use callbook_rs.Prelude.{
  Bool, Bytes, Option, [], all, any, bit_xor, false, if◌then◌else◌, is_ascii_alphabetic,
  is_ascii_digit, is_ascii_graphic, is_ascii_uppercase, is_ascii_whitespace, is_empty, is_some,
  last?, leb, length, ltb, map_option, none, not, some, take, then_some, ℕ, ◌%◌, ◌&&◌, ◌*◌, ◌++◌,
  ◌+◌, ◌-◌, ◌==◌, ◌^◌, ◌||◌, ◌∷◌,
}
use callbook_rs.Prelude.Trim.{trim}
use callbook_rs.Cipher.{decode_dat_byte}
use callbook_rs.Hci.Data.{HciFile, RawHciRecord, DecodedHciRecord, raw_record}

-- The byte at `zero_based` in a record that starts at `dat_offset`; it is `decode_dat_byte` at the
-- sum.
unfoldable pub decode_hci_byte : ℕ → ℕ → ℕ → ℕ
unfolding decode_dat_byte
decode_hci_byte dat_offset zero_based encoded = decode_dat_byte (dat_offset + zero_based) encoded

-- One round of the hash: exclusive or, and a multiplication that wraps at 2^64.
unfoldable pub hash_byte : ℕ → ℕ → ℕ
hash_byte hash byte = bit_xor hash byte * 0x100000001b3 % 2 ^ 64

abbrev pub hash_start : ℕ
hash_start = 0xcbf29ce484222325

abbrev pub hash_from : ℕ → Bytes → ℕ
hash_from hash [] = hash
hash_from hash (byte ∷ key) = hash_from (hash_byte hash byte) key

unfoldable pub hash_key : Bytes → ℕ
unfolding hash_byte
hash_key key = hash_from hash_start key

pub record HciHeaderKey : Type 0 where
  pub hash : ℕ
  pub key : Bytes
  pub year : Option ℕ
  pub header_len : ℕ

-- The variables of the loop in `decode_header_key`.
pub record KeyScan : Type 0 where
  pub hash : ℕ
  pub key : Bytes
  pub colon_at : Option ℕ
  pub year : ℕ
  pub year_digits : ℕ

abbrev pub key_scan : KeyScan
key_scan = record { hash = hash_start; key = []; colon_at = none; year = 0; year_digits = 0 }

-- The digits behind a colon; the year has four digits at most, so its `u16` does not overflow.
unfoldable pub scan_year : ℕ → ℕ → KeyScan → KeyScan
unfolding is_ascii_digit
scan_year zero_based decoded scan =
    if decoded == b':'
    then record scan { colon_at = some zero_based; year = 0; year_digits = 0 }
    else if not (is_some scan.colon_at)
    then scan
    else if not (is_ascii_digit decoded) || leb 4 scan.year_digits
    then record scan { colon_at = none; year_digits = 0 }
    else record scan {
      year = scan.year * 10 + (decoded - b'0');
      year_digits = scan.year_digits + 1;
    }

abbrev pub push_byte : ℕ → KeyScan → KeyScan
push_byte decoded scan = record scan {
  key = scan.key ++ (decoded ∷ []);
  hash = hash_byte scan.hash decoded;
}

-- The return at the terminator.
abbrev pub end_header : ℕ → KeyScan → HciHeaderKey
end_header zero_based scan = record {
  hash = scan.hash;
  key = scan.key;
  year = then_some (scan.year_digits == 4) scan.year;
  header_len = zero_based + 1;
}

-- A byte that a key may hold.
unfoldable pub is_key_byte : ℕ → Bool
unfolding is_ascii_graphic
is_key_byte b = is_ascii_graphic b || b == b' '

unfoldable pub header_loop : ℕ → ℕ → KeyScan → Bytes → Option HciHeaderKey
unfolding decode_hci_byte hash_byte scan_year is_key_byte
header_loop dat_offset zero_based scan [] = none
header_loop dat_offset zero_based scan (encoded ∷ rest) =
    let decoded = decode_hci_byte dat_offset zero_based encoded in
    let next =
      header_loop dat_offset (zero_based + 1)
        (scan_year zero_based decoded (push_byte decoded scan)) rest in
    if decoded == 0xb5
    then (if zero_based == 0 then none else some (end_header zero_based scan))
    else if ltb 0xb4 decoded || not (is_key_byte decoded)
    then none
    else next

unfoldable pub decode_header_key : ℕ → Bytes → Option HciHeaderKey
unfolding header_loop
decode_header_key dat_offset raw_bytes = header_loop dat_offset 0 key_scan (take 100 raw_bytes)

-- `zero_based < key.len()` with `key[zero_based]`: what is left of the key.
unfoldable pub match_loop : ℕ → ℕ → Bytes → Bytes → Option ℕ
unfolding decode_hci_byte
match_loop dat_offset zero_based key [] = none
match_loop dat_offset zero_based (k ∷ key) (encoded ∷ rest) =
    let next = match_loop dat_offset (zero_based + 1) key rest in
    if decode_hci_byte dat_offset zero_based encoded == k then next else none
match_loop dat_offset zero_based [] (encoded ∷ rest) =
    if decode_hci_byte dat_offset zero_based encoded == 0xb5 then some (zero_based + 1) else none

unfoldable pub decoded_header_matches : ℕ → Bytes → Bytes → Option ℕ
unfolding match_loop
decoded_header_matches dat_offset raw_bytes key = match_loop dat_offset 0 key (take 100 raw_bytes)

-- The loop of `decode_header`: the bytes, of which the last may be a terminator; the length that it
-- returns with them is theirs.
unfoldable pub decode_until : ℕ → ℕ → Bytes → Bytes
unfolding decode_hci_byte
decode_until dat_offset zero_based [] = []
decode_until dat_offset zero_based (encoded ∷ rest) =
    let decoded = decode_hci_byte dat_offset zero_based encoded in
    let next = decode_until dat_offset (zero_based + 1) rest in
    if ltb 0xb4 decoded then decoded ∷ [] else decoded ∷ next

unfoldable pub decode_header : ℕ → Bytes → Bytes × ℕ
unfolding decode_until
decode_header dat_offset raw_bytes =
    let bytes = decode_until dat_offset 0 (take 100 raw_bytes) in (bytes, length bytes)

abbrev pub ends_header : Option ℕ → Bool
ends_header none = false
ends_header (some b) = ltb 0xb4 b

unfoldable pub decode_raw_record : RawHciRecord → DecodedHciRecord
unfolding decode_header
decode_raw_record raw =
    let bytes = (decode_header raw.dat_offset raw.raw_bytes).0 in
    record {
      index = raw.index;
      dat_offset = raw.dat_offset;
      bytes = bytes;
      terminated = ends_header (last? bytes);
    }

unfoldable pub decode_record : HciFile → ℕ → Option DecodedHciRecord
unfolding raw_record decode_raw_record
decode_record hci index = map_option decode_raw_record (raw_record hci index)

-- What stands before the first separator: `split(..).next()`, which always yields.
unfoldable pub before_byte : ℕ → Bytes → Bytes
before_byte byte [] = []
before_byte byte (b ∷ bs) = let rest = before_byte byte bs in if b == byte then [] else b ∷ rest

-- A byte of a callsign.
unfoldable pub is_call_byte : ℕ → Bool
unfolding is_ascii_uppercase is_ascii_digit
is_call_byte b = is_ascii_uppercase b || is_ascii_digit b || b == b'/'

unfoldable pub trim_ascii_whitespace : Bytes → Bytes
trim_ascii_whitespace bytes = trim is_ascii_whitespace bytes

unfoldable pub looks_like_callsign_header : Bytes → Bool
unfolding before_byte trim_ascii_whitespace is_call_byte is_ascii_alphabetic is_ascii_digit
looks_like_callsign_header key =
    let call = trim_ascii_whitespace (before_byte b':' key) in
    not (is_empty call)
    && leb (length call) 12
    && any is_ascii_alphabetic call
    && any is_ascii_digit call
    && all is_call_byte call
