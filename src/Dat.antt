-- ===== src/Dat.antt =====
-- crates/callbook/src/db.rs: from a posting of the inverted index to the records of `hamcall.dat`.
pub mod Bounds
pub mod Query
pub mod Keys
pub mod Callsigns
pub mod Report
pub mod Entries
pub mod Statistics
use callbook_rs.Prelude.{
  Bool, Bytes, Option, [], drop, false, get_elem?, if◌then◌else◌, leb, length, min, none, not,
  or_else, slice, some, suc, zero, ℕ, ◌+◌, ◌-◌, ◌==◌, ◌^◌, ◌||◌, ◌∷◌,
}
use callbook_rs.Cipher.{decode_dat_byte, decode_phase, phase_for_dat_offset}

pub data RecordBoundarySource : Type 0 where
  hci_posting_start scan_fallback : RecordBoundarySource

pub record RecordBoundsTrace : Type 0 where
  pub start : ℕ
  pub end : ℕ
  pub source : RecordBoundarySource
  pub backward_scan_bytes : Option ℕ
  pub forward_scan_bytes : Option ℕ

-- Whether the encoded byte at the position is the mark of a record.
abbrev pub byte_is_mark : ℕ → Option ℕ → Bool
byte_is_mark position none = false
byte_is_mark position (some encoded) = decode_dat_byte position encoded == 0xb5

unfoldable pub mark_at : Bytes → ℕ → Bool
mark_at encoded position = byte_is_mark position (get_elem? encoded position)

-- The loop forward: the bytes from `position` on.
unfoldable pub scan_forward : Bytes → ℕ → ℕ
scan_forward [] position = position
scan_forward (encoded ∷ rest) position =
    let later = scan_forward rest (position + 1) in
    if decode_dat_byte position encoded == 0xb5 then position else later

-- The loop backward.
unfoldable pub scan_back : Bytes → ℕ → ℕ
unfolding mark_at
scan_back encoded zero = zero
scan_back encoded (suc position) =
    let earlier = scan_back encoded position in
    if mark_at encoded (suc position) then suc position else earlier

unfoldable pub record_bounds_containing_offset_in : Bytes → ℕ → Option RecordBoundsTrace
unfolding scan_forward scan_back mark_at
record_bounds_containing_offset_in encoded dat_offset =
    let start = scan_back encoded dat_offset in
    let position = scan_forward (drop (start + 1) encoded) (start + 1) in
    if leb (length encoded) dat_offset
    then none
    else if not (mark_at encoded start)
    then none
    else some (record {
      start = start;
      end = position;
      source = scan_fallback;
      backward_scan_bytes = some (dat_offset - start);
      forward_scan_bytes = some (position - dat_offset);
    })

unfoldable pub record_bounds_from_hci_posting_start_in : Bytes → ℕ → Option RecordBoundsTrace
unfolding scan_forward mark_at
record_bounds_from_hci_posting_start_in encoded dat_offset =
    if leb (length encoded) dat_offset || not (mark_at encoded dat_offset)
    then none
    else some (record {
      start = dat_offset;
      end = scan_forward (drop (dat_offset + 1) encoded) (dat_offset + 1);
      source = hci_posting_start;
      backward_scan_bytes = none;
      forward_scan_bytes = none;
    })

unfoldable pub record_bounds_for_hci_posting : Bytes → ℕ → Option RecordBoundsTrace
unfolding record_bounds_from_hci_posting_start_in record_bounds_containing_offset_in
record_bounds_for_hci_posting dat_mmap dat_offset =
    or_else (record_bounds_from_hci_posting_start_in dat_mmap dat_offset)
      (record_bounds_containing_offset_in dat_mmap dat_offset)

-- `decode_bounds_into` on a cleared buffer.
unfoldable pub decode_bounds : Bytes → ℕ → ℕ → Bytes
unfolding decode_phase phase_for_dat_offset
decode_bounds dat_mmap start end =
    decode_phase start (slice dat_mmap start end) (phase_for_dat_offset start)

abbrev pub decode_found : Bytes → Option RecordBoundsTrace → Bytes
decode_found dat_mmap none = []
decode_found dat_mmap (some bounds) = decode_bounds dat_mmap bounds.start bounds.end

unfoldable pub decode_hci_posting_record : Bytes → ℕ → Bytes
unfolding record_bounds_for_hci_posting decode_bounds
decode_hci_posting_record dat_mmap dat_offset =
    decode_found dat_mmap (record_bounds_for_hci_posting dat_mmap dat_offset)

-- `decode_from_offset_into`; `saturating_add` stops at 2^64 - 1.
unfoldable pub decode_from_offset : Bytes → ℕ → ℕ → Bytes
unfolding decode_phase phase_for_dat_offset
decode_from_offset dat_mmap dat_offset max_len =
    let end = min (min (dat_offset + max_len) (2 ^ 64 - 1)) (length dat_mmap) in
    if leb (length dat_mmap) dat_offset
    then []
    else decode_phase dat_offset (slice dat_mmap dat_offset end) (phase_for_dat_offset dat_offset)
