-- ===== src/Scan.antt =====
-- The scans of crates/callbook/src/db.rs over the whole decoded DAT file: `InterestSearchScan`,
-- `InterestScan` and `TagScan`. `String::from_utf8_lossy` is a parameter.
pub mod Search
pub mod Statistics
pub mod Tags
pub mod Value
pub mod Bodies
use callbook_rs.Prelude.{
  Bool, Bytes, Option, [], false, if◌then◌else◌, map_option, none, not, some, then_some, true, ℕ,
  ◌&&◌, ◌++◌, ◌+◌, ◌==◌, ◌>>=◌, ◌∷◌,
}
use callbook_rs.Prelude.Trim.{trim}
use callbook_rs.Prelude.Text.{split_once}
use callbook_rs.Decimal.{parse_uint}
use callbook_rs.Error.{Result, err, ok}
use callbook_rs.Callsign.{parse}
use callbook_rs.Cipher.{decode_from}
use callbook_rs.V2Record.Text.{is_padding, is_tag}
use callbook_rs.V2Record.Segment.{is_mark}

-- `Result::ok` on a parsed callsign: whether there is one.
unfoldable pub is_callsign : Bytes → Bool
unfolding parse
is_callsign text = elim (parse text) [ err why ↦ false | ok callsign ↦ true ]

-- A callsign and the year of its archive.
abbrev pub RecordKey : Type 0
RecordKey = Bytes × Option ℕ

abbrev pub key_parts : Bytes → Option (Bytes × Bytes) → Option RecordKey
key_parts key none = some (key, none)
key_parts key (some (callsign, year)) = map_option (λ y. (callsign, some y)) (parse_uint 16 year)

abbrev pub checked_parts : RecordKey → Option RecordKey
checked_parts parts = then_some (is_callsign parts.0) parts

-- The fields that `InterestSearchScan` and `InterestScan` keep of the record that is scanned.
pub record RecordScan : Type 0 where
  pub key : Bytes
  pub interest_raw : Bytes
  pub current_tag : Option ℕ
  pub in_record : Bool
  pub key_complete : Bool

abbrev pub new_scan : RecordScan
new_scan = record {
  key = [];
  interest_raw = [];
  current_tag = none;
  in_record = false;
  key_complete = false;
}

unfoldable pub start_record : RecordScan → RecordScan
start_record scan = record scan {
  in_record = true;
  key_complete = false;
  current_tag = none;
  key = [];
  interest_raw = [];
}

abbrev pub is_interest_tag : Option ℕ → Bool
is_interest_tag none = false
is_interest_tag (some tag) = tag == 0xd5

abbrev pub start_tag : ℕ → RecordScan → RecordScan
start_tag tag scan = record scan {
  key_complete = true;
  current_tag = some tag;
  interest_raw = if tag == 0xd5 then [] else scan.interest_raw;
}

-- The arms of the match behind the mark.
unfoldable pub scan_byte : ℕ → RecordScan → RecordScan
scan_byte byte scan =
    if is_tag byte && scan.in_record
    then start_tag byte scan
    else if scan.in_record && not scan.key_complete
    then record scan { key = scan.key ++ (byte ∷ []) }
    else if scan.in_record && is_interest_tag scan.current_tag
    then record scan { interest_raw = scan.interest_raw ++ (byte ∷ []) }
    else scan

-- `finish_record` of the scan, on what it has found so far.
module _ {ℓ} {M : Type ℓ} (finish_record : RecordScan → M → M) where
  -- The loop of `scan_dat` over the decoded bytes, and the last `finish_record`.
  unfoldable pub scan_bytes : Bytes → RecordScan → M → M
  unfolding scan_byte start_record
  scan_bytes [] scan found = finish_record scan found
  scan_bytes (byte ∷ bytes) scan found =
      let next = if is_mark byte then start_record scan else scan_byte byte scan in
      scan_bytes bytes next (if is_mark byte then finish_record scan found else found)

  -- `scan_dat`; the byte at each offset is decoded by its offset.
  unfoldable pub scan_dat : Bytes → M → M
  unfolding scan_bytes decode_from
  scan_dat encoded found = scan_bytes (decode_from 0 encoded) new_scan found

module _ (from_utf8_lossy : Bytes → Bytes) where
  unfoldable pub trim_lossy : Bytes → Bytes
  unfolding trim is_padding
  trim_lossy bytes = from_utf8_lossy (trim is_padding bytes)

  unfoldable pub interest_record_key : Bytes → Option RecordKey
  unfolding trim_lossy split_once parse_uint is_callsign
  interest_record_key bytes =
      let key = trim_lossy bytes in key_parts key (split_once b':' key) >>= checked_parts
