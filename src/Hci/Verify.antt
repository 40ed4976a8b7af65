-- ===== src/Hci/Verify.antt =====
-- `VerifyReport` and `verify` of hci.rs.
pub mod Records
use callbook_rs.Prelude.{
  Bool, Option, if◌then◌else◌, leb, length, ltb, max, min, none, some, suc, zero, ℕ, ◌+◌, ◌-◌, ◌==◌,
}
use callbook_rs.Hci.Data.{HciFile, offset, len}

pub record VerifyReport : Type 0 where
  pub entries : ℕ
  pub dat_size : ℕ
  pub first_offset : Option ℕ
  pub last_offset : Option ℕ
  pub offset_order_violations : ℕ
  pub out_of_bounds_offsets : ℕ
  pub zero_length_records : ℕ
  pub min_record_len : Option ℕ
  pub max_record_len : Option ℕ

-- The counters of the loop and its variable `prev`.
pub record OffsetScan : Type 0 where
  pub offset_order_violations : ℕ
  pub out_of_bounds_offsets : ℕ
  pub zero_length_records : ℕ
  pub min_record_len : Option ℕ
  pub max_record_len : Option ℕ
  pub prev : Option ℕ

abbrev pub bump_if : Bool → ℕ → ℕ
bump_if b n = if b then n + 1 else n

-- `map_or(len, |m| m.min(len))`, and the same with `max`.
abbrev pub min_with : Option ℕ → ℕ → ℕ
min_with none len = len
min_with (some m) len = min m len

abbrev pub max_with : Option ℕ → ℕ → ℕ
max_with none len = len
max_with (some m) len = max m len

-- The length of a record enters the counters.
abbrev pub count_len : ℕ → OffsetScan → OffsetScan
count_len len scan = record scan {
  zero_length_records = bump_if (len == 0) scan.zero_length_records;
  min_record_len = some (min_with scan.min_record_len len);
  max_record_len = some (max_with scan.max_record_len len);
}

-- Two offsets in a row; `saturating_sub` stops at 0, as subtraction does here.
abbrev pub visit_pair : Option ℕ → ℕ → OffsetScan → OffsetScan
visit_pair none off scan = scan
visit_pair (some prev_off) off scan = count_len (off - prev_off) (record scan {
  offset_order_violations = bump_if (leb off prev_off) scan.offset_order_violations;
})

-- The body of the loop; `none` is an offset that the table does not have.
abbrev pub visit_offset : ℕ → Option ℕ → OffsetScan → OffsetScan
visit_offset dat_size none scan = record scan {
  out_of_bounds_offsets = scan.out_of_bounds_offsets + 1;
}
visit_offset dat_size (some off) scan =
    record (visit_pair scan.prev off (record scan {
      out_of_bounds_offsets = bump_if (ltb dat_size off) scan.out_of_bounds_offsets;
    })) { prev = some off }

-- The loop over `count` ordinals from `i` on.
unfoldable pub visit_offsets : HciFile → ℕ → ℕ → OffsetScan → OffsetScan
visit_offsets hci zero i scan = scan
visit_offsets hci (suc count) i scan =
    visit_offsets hci count (i + 1) (visit_offset (length hci.dat_mmap) (offset hci i) scan)

abbrev pub start_scan : OffsetScan
start_scan = record {
  offset_order_violations = 0;
  out_of_bounds_offsets = 0;
  zero_length_records = 0;
  min_record_len = none;
  max_record_len = none;
  prev = none;
}

-- The last record ends with the file.
abbrev pub visit_last : ℕ → Option ℕ → OffsetScan → OffsetScan
visit_last dat_size none scan = scan
visit_last dat_size (some last) scan = count_len (dat_size - last) scan

-- `entries.checked_sub(1)`.
abbrev pub last_offset_of : HciFile → Option ℕ
last_offset_of hci = if len hci == 0 then none else offset hci (len hci - 1)

unfoldable pub verify_hci : HciFile → VerifyReport
unfolding visit_offsets
verify_hci hci =
    let dat_size = length hci.dat_mmap in
    let last_offset = last_offset_of hci in
    let scan = visit_last dat_size last_offset (visit_offsets hci (len hci) 0 start_scan) in
    record {
      entries = len hci;
      dat_size = dat_size;
      first_offset = offset hci 0;
      last_offset = last_offset;
      offset_order_violations = scan.offset_order_violations;
      out_of_bounds_offsets = scan.out_of_bounds_offsets;
      zero_length_records = scan.zero_length_records;
      min_record_len = scan.min_record_len;
      max_record_len = scan.max_record_len;
    }
