-- ===== src/Hci/Data.antt =====
-- The data of hci.rs, and the offset table.
use callbook_rs.Prelude.{
  Bool, Bytes, List, Option, [], drop, if◌then◌else◌, length, ltb, none, slice, some, then_some,
  unwrap_or, ℕ, ◌*◌, ◌+◌, ◌/◌, ◌>>=◌, ◌^◌, ◌||◌, ◌∷◌,
}

-- A key of the table by hash: a `u64` and a `u32`.
pub record HciKeyRef : Type 0 where
  pub hash : ℕ
  pub index : ℕ

pub record HciFile : Type 0 where
  pub index_mmap : Bytes
  pub dat_mmap : Bytes
  pub key_index : List HciKeyRef
  pub publication_years : List ℕ

pub record RawHciRecord : Type 0 where
  pub index : ℕ
  pub dat_offset : ℕ
  pub raw_len : ℕ
  pub raw_bytes : Bytes

pub record DecodedHciRecord : Type 0 where
  pub index : ℕ
  pub dat_offset : ℕ
  pub bytes : Bytes
  pub terminated : Bool

pub record HciPosting : Type 0 where
  pub dat_offset : ℕ
  pub position : ℕ

-- `u32::from_be_bytes`.
abbrev pub from_be_bytes : ℕ → ℕ → ℕ → ℕ → ℕ
from_be_bytes a b c d = ((a * 256 + b) * 256 + c) * 256 + d

-- The big-endian number in the first four bytes, if there are four: `get(start..start + 4)` on what
-- stands from `start` on.
abbrev pub be_u32? : Bytes → Option ℕ
be_u32? [] = none
be_u32? (a ∷ []) = none
be_u32? (a ∷ b ∷ []) = none
be_u32? (a ∷ b ∷ c ∷ []) = none
be_u32? (a ∷ b ∷ c ∷ d ∷ rest) = some (from_be_bytes a b c d)

-- `len`: the number of offsets.
abbrev pub len : HciFile → ℕ
len hci = length hci.index_mmap / 4

-- `index.checked_mul(4)` of a `usize`, and the four bytes there.
unfoldable pub offset : HciFile → ℕ → Option ℕ
offset hci index = do
  start ← then_some (ltb (index * 4) (2 ^ 64)) (index * 4)
  be_u32? (drop start hci.index_mmap)

-- A record may not start or end past the file, nor end before it starts.
abbrev pub outside : ℕ → ℕ → ℕ → Bool
outside dat_size start end = ltb dat_size start || ltb dat_size end || ltb end start

abbrev pub raw_at : ℕ → ℕ → Bytes → RawHciRecord
raw_at index start raw_bytes = record {
  index = index;
  dat_offset = start;
  raw_len = length raw_bytes;
  raw_bytes = raw_bytes;
}

abbrev pub raw_between : Bytes → ℕ → ℕ → ℕ → Option RawHciRecord
raw_between dat index start end =
    if outside (length dat) start end then none else some (raw_at index start (slice dat start end))

unfoldable pub raw_record : HciFile → ℕ → Option RawHciRecord
unfolding offset
raw_record hci index = do
  start ← offset hci index
  raw_between hci.dat_mmap index start (unwrap_or (offset hci (index + 1)) (length hci.dat_mmap))
