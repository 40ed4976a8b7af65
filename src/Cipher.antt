-- ===== src/Cipher.antt =====
-- The position-dependent XOR stream of the `ham0` files: `decode_phase_into` and
-- `phase_for_dat_offset` of crates/callbook/src/v2_dat.rs, and `decode_dat_byte` of
-- crates/callbook/src/db.rs, which hci.rs and sidecar.rs repeat under other names.
pub mod Xor
pub mod Stream
pub mod Score
pub mod Ranking
use callbook_rs.Prelude.{
  ℕ, zero, suc, ◌+◌, ◌-◌, ◌*◌, ◌%◌, ◌^◌, Bytes, List, [], ◌∷◌, ◌++◌, ltb, if◌then◌else◌, bit_xor,
  min, length, take, drop,
}

-- The key of the stream has period 101, and is a `u8`.
abbrev pub period : ℕ
period = 101

-- `(encoded ^ 7) ^ key`.
unfoldable pub unmask : ℕ → ℕ → ℕ
unmask key encoded = bit_xor (bit_xor encoded 7) key

-- The decoded byte at an absolute file offset. Offsets are file positions, far below 2^64.
unfoldable pub decode_dat_byte : ℕ → ℕ → ℕ
decode_dat_byte offset encoded = unmask ((offset + 4) % period) encoded

-- `rem_euclid` of the `i64` that the bit pattern `w` below 2^64 stands for.
abbrev pub i64_rem_euclid : ℕ → ℕ → ℕ
i64_rem_euclid w m = if ltb w (2 ^ 63) then w % m else (m - (2 ^ 64 - w) % m) % m

-- `(1 - dat_offset as i64 + i64::from(phase)).rem_euclid(101)`, the sum in wrapping 64-bit
-- arithmetic.
unfoldable pub start_key : ℕ → ℕ → ℕ
start_key dat_offset phase = i64_rem_euclid ((1 + 2 ^ 64 - dat_offset + phase) % 2 ^ 64) period

-- `chunk.iter().enumerate()` mapped with `(key + i) as u8`.
unfoldable pub unmask_run : ℕ → Bytes → Bytes
unmask_run key [] = []
unmask_run key (encoded ∷ rest) = unmask (key % 2 ^ 8) encoded ∷ unmask_run (key + 1) rest

-- The `while !remaining.is_empty()` loop. The fuel bounds the bytes that remain.
unfoldable pub decode_blocks : ℕ → ℕ → Bytes → Bytes
decode_blocks fuel key [] = []
decode_blocks zero key (b ∷ remaining) = []
decode_blocks (suc fuel) key (b ∷ remaining) =
    let n = min (period - key) (length (b ∷ remaining)) in
    unmask_run key (take n (b ∷ remaining)) ++ decode_blocks fuel 0 (drop n (b ∷ remaining))

-- `decode_phase`, and `decode_phase_into` on a cleared buffer.
unfoldable pub decode_phase : ℕ → Bytes → ℕ → Bytes
unfolding start_key decode_blocks unmask_run
decode_phase dat_offset raw_bytes phase =
    decode_blocks (length raw_bytes) (start_key dat_offset phase) raw_bytes

unfoldable pub phase_for_dat_offset : ℕ → ℕ
phase_for_dat_offset dat_offset = (dat_offset % period * 2 + 3) % period

-- The decoding of a run of bytes by their absolute positions, one by one: what the scans of db.rs
-- do, and what the block loop above is to agree with.
unfoldable pub decode_from : ℕ → Bytes → Bytes
unfolding decode_dat_byte
decode_from offset [] = []
decode_from offset (b ∷ bs) = decode_dat_byte offset b ∷ decode_from (offset + 1) bs
