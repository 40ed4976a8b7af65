-- ===== src/Scan/Tags.antt =====
-- `TagScan` and `modern_tag_name`: the inventory of the tags of the DAT file.
use callbook_rs.Prelude.{
  Bool, Bytes, List, Option, [], any, bytes_eq, codes, false, if◌then◌else◌, is_empty, is_some, leb,
  length, ltb, map, none, not, or_else, some, true, ℕ, ◌&&◌, ◌++◌, ◌+◌, ◌==◌, ◌>>=◌, ◌∷◌,
}
use callbook_rs.Cipher.{decode_from}
use callbook_rs.V2Record.Text.{is_tag}
use callbook_rs.V2Record.Segment.{is_mark}
use callbook_rs.Scan.{interest_record_key, trim_lossy}
use callbook_rs.Scan.Statistics.{one_current, one_archive}

-- `field_name` is a function of the tag.
pub record ModernTagCount : Type 0 where
  pub tag : ℕ
  pub field_name : Option Bytes
  pub occurrences : ℕ
  pub current_occurrences : ℕ
  pub archive_occurrences : ℕ
  pub sample_values : List Bytes

-- `TagAccumulator` with its key in the map.
pub record TagAccumulator : Type 0 where
  pub tag : ℕ
  pub occurrences : ℕ
  pub current_occurrences : ℕ
  pub archive_occurrences : ℕ
  pub sample_values : List Bytes

pub record TagScan : Type 0 where
  pub key : Bytes
  pub value : Bytes
  pub current_tag : Option ℕ
  pub in_record : Bool
  pub key_complete : Bool
  pub vintage : Option ℕ
  pub tags : List TagAccumulator

abbrev pub default_scan : TagScan
default_scan = record {
  key = [];
  value = [];
  current_tag = none;
  in_record = false;
  key_complete = false;
  vintage = none;
  tags = [];
}

abbrev pub default_accumulator : ℕ → TagAccumulator
default_accumulator tag = record {
  tag = tag;
  occurrences = 0;
  current_occurrences = 0;
  archive_occurrences = 0;
  sample_values = [];
}

unfoldable pub add_sample : Bytes → List Bytes → List Bytes
unfolding bytes_eq
add_sample value samples =
    if ltb (length samples) 3 && not (any (λ sample. bytes_eq sample value) samples)
    then samples ++ (value ∷ [])
    else samples

unfoldable pub add_value : Option ℕ → Bytes → TagAccumulator → TagAccumulator
unfolding add_sample
add_value vintage value acc = record acc {
  occurrences = acc.occurrences + 1;
  current_occurrences = acc.current_occurrences + one_current vintage;
  archive_occurrences = acc.archive_occurrences + one_archive vintage;
  sample_values = add_sample value acc.sample_values;
}

-- `entry(tag).or_default()` and the update, in the list of entries by tag.
unfoldable pub count_tag : ℕ → Option ℕ → Bytes → List TagAccumulator → List TagAccumulator
unfolding add_value
count_tag tag vintage value [] = add_value vintage value (default_accumulator tag) ∷ []
count_tag tag vintage value (acc ∷ accs) =
    let rest = count_tag tag vintage value accs in
    if ltb tag acc.tag
    then add_value vintage value (default_accumulator tag) ∷ acc ∷ accs
    else if tag == acc.tag
    then add_value vintage value acc ∷ accs
    else acc ∷ rest

abbrev pub start_tag_record : TagScan → TagScan
start_tag_record scan = record scan {
  in_record = true;
  key_complete = false;
  current_tag = none;
  vintage = none;
  key = [];
  value = [];
}

module _ (from_utf8_lossy : Bytes → Bytes) where
  -- The year of the record's key, if the key is one.
  abbrev pub key_vintage : Bytes → Option ℕ
  key_vintage key = interest_record_key from_utf8_lossy key >>= λ parts. parts.1

  abbrev pub count_value : ℕ → Bytes → TagScan → TagScan
  count_value tag value scan =
      if is_empty value
      then scan
      else record scan { tags = count_tag tag scan.vintage value scan.tags }

  -- `self.current_tag.take()`, and what follows.
  abbrev pub finish_tag : Option ℕ → TagScan → TagScan
  finish_tag none scan =
      if scan.in_record && not scan.key_complete
      then record scan { vintage = key_vintage scan.key }
      else scan
  finish_tag (some tag) scan =
      count_value tag (trim_lossy from_utf8_lossy scan.value)
        (record scan { current_tag = none; vintage = or_else scan.vintage (key_vintage scan.key) })

  unfoldable pub finish_value : TagScan → TagScan
  unfolding count_tag interest_record_key trim_lossy
  finish_value scan = finish_tag scan.current_tag scan

  abbrev pub start_tag_value : ℕ → TagScan → TagScan
  start_tag_value tag scan = record scan { key_complete = true; current_tag = some tag; value = [] }

  -- The arms of the match.
  unfoldable pub scan_tag_byte : ℕ → TagScan → TagScan
  unfolding finish_value
  scan_tag_byte byte scan =
      if is_mark byte
      then start_tag_record (finish_value scan)
      else if is_tag byte && scan.in_record
      then start_tag_value byte (finish_value scan)
      else if scan.in_record && not scan.key_complete
      then record scan { key = scan.key ++ (byte ∷ []) }
      else if scan.in_record && is_some scan.current_tag
      then record scan { value = scan.value ++ (byte ∷ []) }
      else scan

  unfoldable pub scan_tag_bytes : Bytes → TagScan → TagScan
  unfolding scan_tag_byte finish_value
  scan_tag_bytes [] scan = finish_value scan
  scan_tag_bytes (byte ∷ bytes) scan = scan_tag_bytes bytes (scan_tag_byte byte scan)

  unfoldable pub scan_tags : Bytes → List TagAccumulator
  unfolding scan_tag_bytes decode_from
  scan_tags encoded = (scan_tag_bytes (decode_from 0 encoded) default_scan).tags

-- The fields up to 0xc7, and from 0xc8 on.
abbrev pub late_tag_name : ℕ → Option Bytes
late_tag_name tag =
    if tag == 0xc8
    then some (codes "latitude")
    else if tag == 0xc9
    then some (codes "longitude")
    else if tag == 0xca
    then some (codes "grid")
    else if tag == 0xcb
    then some (codes "area_code")
    else if tag == 0xcc
    then some (codes "previous_call")
    else if tag == 0xcd
    then some (codes "previous_class")
    else if tag == 0xce
    then some (codes "fcc_transaction_type")
    else if tag == 0xcf
    then some (codes "email")
    else if tag == 0xd0
    then some (codes "qsl")
    else if tag == 0xd1
    then some (codes "country")
    else if tag == 0xd2
    then some (codes "url")
    else if tag == 0xd4
    then some (codes "fax_number")
    else if tag == 0xd5
    then some (codes "interest_codes")
    else if tag == 0xd7
    then some (codes "license_id")
    else if tag == 0xd9
    then some (codes "frn")
    else if tag == 0xda
    then some (codes "iota")
    else if tag == 0xde
    then some (codes "numeric_id")
    else none

unfoldable pub modern_tag_name : ℕ → Option Bytes
modern_tag_name tag =
    if tag == 0xb6
    then some (codes "license_class")
    else if tag == 0xb7
    then some (codes "record_code")
    else if tag == 0xb8
    then some (codes "first_name")
    else if tag == 0xb9
    then some (codes "middle_name")
    else if tag == 0xba
    then some (codes "last_name")
    else if tag == 0xbb
    then some (codes "suffix")
    else if leb 0xbc tag && leb tag 0xbe
    then some (codes "address")
    else if tag == 0xbf
    then some (codes "city")
    else if tag == 0xc0
    then some (codes "state_or_province")
    else if tag == 0xc1
    then some (codes "postal_code")
    else if tag == 0xc2
    then some (codes "birth_date")
    else if tag == 0xc3
    then some (codes "first_issued")
    else if tag == 0xc4
    then some (codes "expires")
    else if tag == 0xc5
    then some (codes "last_changed")
    else if tag == 0xc6
    then some (codes "county")
    else if tag == 0xc7
    then some (codes "gmt_offset")
    else late_tag_name tag

abbrev pub tag_count_of : TagAccumulator → ModernTagCount
tag_count_of acc = record {
  tag = acc.tag;
  field_name = modern_tag_name acc.tag;
  occurrences = acc.occurrences;
  current_occurrences = acc.current_occurrences;
  archive_occurrences = acc.archive_occurrences;
  sample_values = acc.sample_values;
}

-- `modern_tag_statistics` of a database with a V2 shard.
unfoldable pub modern_tag_statistics : (Bytes → Bytes) → Bytes → List ModernTagCount
unfolding scan_tags modern_tag_name
modern_tag_statistics from_utf8_lossy dat_mmap =
    map tag_count_of (scan_tags from_utf8_lossy dat_mmap)
