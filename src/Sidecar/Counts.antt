-- ===== src/Sidecar/Counts.antt =====
-- `LookupCountFile`, `LookupCounts` and `LookupCountIter`: the fixed-width records of
-- `ham0/counts.dat`. `String::from_utf8_lossy` is the section's parameter.
use callbook_rs.Prelude.{
  false, Bool, Bytes, List, Option, [], all, false, get_elem?, if◌then◌else◌, inl, inr,
  is_ascii_graphic, is_empty, is_some, leb, length, ltb, map_option, none, not, slice, some, suc,
  take, then_some, to_ascii_uppercase, zero, ℕ, ◌&&◌, ◌*◌, ◌+◌, ◌-◌, ◌/◌, ◌==◌, ◌>>=◌, ◌∷◌, ◌⊎◌,
}
use callbook_rs.Prelude.Order.{lt_bytes}
use callbook_rs.Prelude.Trim.{trim}
use callbook_rs.Prelude.Text.{str_trim, to_uppercase}
use callbook_rs.Decimal.{parse_uint}
use callbook_rs.Cipher.{decode_from}
use callbook_rs.V2Record.Text.{is_padding}

abbrev pub count_record_len : ℕ
count_record_len = 33

abbrev pub count_key_len : ℕ
count_key_len = 15

abbrev pub count_field_end : ℕ
count_field_end = 22

abbrev pub count_date_end : ℕ
count_date_end = 30

pub record LookupCountRecord : Type 0 where
  pub key : Bytes
  pub count : ℕ
  pub updated_yyyymmdd : Option ℕ
  pub status : Option ℕ

-- The mapped bytes, and the number of whole records among them.
pub record LookupCountFile : Type 0 where
  pub mmap : Bytes
  pub records : ℕ

unfoldable pub open_counts : Bytes → LookupCountFile
open_counts mmap = record { mmap = mmap; records = length mmap / count_record_len }

-- `Option::filter`.
abbrev pub filter_option {ℓ} : {A : Type ℓ} → (A → Bool) → Option A → Option A
filter_option p none = none
filter_option p (some a) = then_some (p a) a

abbrev pub is_date : ℕ → Bool
is_date date = leb 19900101 date && leb date 21000101

unfoldable pub repeated_key : Bytes → ℕ → Bool
repeated_key key byte = not (is_empty key) && all (λ candidate. candidate == byte) key

abbrev pub is_repeated : ℕ → Option Bytes → Bool
is_repeated byte none = false
is_repeated byte (some key) = repeated_key key byte

-- `decoded_slot`; every byte is decoded at its position in the file.
unfoldable pub decoded_slot : LookupCountFile → ℕ → Option Bytes
unfolding decode_from
decoded_slot file index =
    let start = index * count_record_len in
    if leb file.records index
    then none
    else some (decode_from start (slice file.mmap start (start + count_record_len)))

-- The next index to try, and where the search_slots ends, after a comparison with the key at `mid`.
abbrev pub Step : Type 0
Step = (ℕ × ℕ) ⊎ ℕ

unfoldable pub narrow : Bytes → ℕ → ℕ → ℕ → Option Bytes → Step
unfolding lt_bytes
narrow key low high mid none = inl (mid + 1, high)
narrow key low high mid (some record_key) =
    if lt_bytes record_key key
    then inl (mid + 1, high)
    else (if lt_bytes key record_key then inl (low, mid) else inr mid)

-- The `while low < high` loop of `lookup` up to the slot whose record is returned, over the keys of
-- the slots. The fuel is a bound on the width of the range.
unfoldable pub search_slots : (ℕ → Option Bytes) → Bytes → ℕ → ℕ → ℕ → Option ℕ
unfolding narrow
search_slots key_at key zero low high = none
search_slots key_at key (suc fuel) low high =
    let mid = low + (high - low) / 2 in
    let stepped : Option ℕ = elim (narrow key low high mid (key_at mid)) [
      | inl (low', high') ↦ search_slots key_at key fuel low' high'
      | inr found ↦ some found
    ] in
    if ltb low high then stepped else none

-- The record of a slot with the index behind it, or what follows.
abbrev pub yield_or :
    Option LookupCountRecord → ℕ → Option (LookupCountRecord × ℕ) → Option (LookupCountRecord × ℕ)
yield_or none index rest = rest
yield_or (some found) index rest = some (found, index)

module _ (from_utf8_lossy : Bytes → Bytes) where
  unfoldable pub trim_ascii_lossy : Bytes → Bytes
  unfolding trim is_padding
  trim_ascii_lossy bytes = from_utf8_lossy (trim is_padding bytes)

  unfoldable pub decoded_key : LookupCountFile → ℕ → Option Bytes
  unfolding decoded_slot trim_ascii_lossy
  decoded_key file index = decoded_slot file index >>= λ slot.
      let key = trim_ascii_lossy (take count_key_len slot) in then_some (not (is_empty key)) key

  unfoldable pub count_of : Bytes → Bytes → Option LookupCountRecord
  unfolding trim_ascii_lossy parse_uint is_ascii_graphic
  count_of key slot =
      map_option
        (λ count. record {
          key = key;
          count = count;
          updated_yyyymmdd =
              filter_option is_date
                (parse_uint 32 (trim_ascii_lossy (slice slot count_field_end count_date_end)));
          status = filter_option is_ascii_graphic (get_elem? slot count_date_end);
        })
        (parse_uint 32 (trim_ascii_lossy (slice slot count_key_len count_field_end)))

  unfoldable pub parse_count_record : Bytes → Option LookupCountRecord
  unfolding trim_ascii_lossy count_of
  parse_count_record slot =
      let key = trim_ascii_lossy (take count_key_len slot) in
      if is_empty key then none else count_of key slot

  -- `LookupCountFile::record`.
  unfoldable pub record_at : LookupCountFile → ℕ → Option LookupCountRecord
  unfolding decoded_slot parse_count_record
  record_at file index = decoded_slot file index >>= parse_count_record

  unfoldable pub has_prologue_and_sentinels : LookupCountFile → Bool
  unfolding decoded_key repeated_key
  has_prologue_and_sentinels file =
      leb 4 file.records
      && not (is_some (decoded_key file 0))
      && is_repeated b'!' (decoded_key file 2)
      && is_repeated b'z' (decoded_key file (file.records - 1))

  unfoldable pub searchable_record_range : LookupCountFile → ℕ × ℕ
  unfolding has_prologue_and_sentinels
  searchable_record_range file =
      if has_prologue_and_sentinels file then (3, file.records - 1) else (0, file.records)

  -- `LookupCountFile::lookup`, and `LookupCounts::lookup`.
  unfoldable pub lookup_count : LookupCountFile → Bytes → Option LookupCountRecord
  unfolding searchable_record_range search_slots record_at decoded_key str_trim to_ascii_uppercase
  lookup_count file callsign =
      let key = to_uppercase (str_trim callsign) in
      let range = searchable_record_range file in
      if is_empty key
      then none
      else (search_slots (decoded_key file) key (suc (range.1 - range.0)) range.0 range.1
          >>= record_at file)

  unfoldable pub count_slots : LookupCountFile → ℕ
  unfolding searchable_record_range
  count_slots file = let range = searchable_record_range file in range.1 - range.0

  -- `LookupCountIter::next`, which also moves `next`; the fuel bounds the slots left.
  unfoldable pub next_count : LookupCountFile → ℕ → ℕ → ℕ → Option (LookupCountRecord × ℕ)
  unfolding record_at
  next_count file zero index end = none
  next_count file (suc fuel) index end =
      let rest = next_count file fuel (index + 1) end in
      if ltb index end then yield_or (record_at file index) (index + 1) rest else none

  -- What the iterator yields from `next` on.
  unfoldable pub collect_counts : LookupCountFile → ℕ → ℕ → ℕ → List LookupCountRecord
  unfolding next_count
  collect_counts file zero index end = []
  collect_counts file (suc fuel) index end = elim (next_count file (suc (end - index)) index end) [
    | some (found, index') ↦ found ∷ collect_counts file fuel index' end
    | none ↦ []
  ]

  unfoldable pub iter_counts : LookupCountFile → List LookupCountRecord
  unfolding searchable_record_range collect_counts
  iter_counts file =
      let range = searchable_record_range file in
      collect_counts file (suc (range.1 - range.0)) range.0 range.1
