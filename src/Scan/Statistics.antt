-- ===== src/Scan/Statistics.antt =====
-- `InterestScan`: the interest statistics of the whole DAT file.
pub mod Counts
use callbook_rs.Prelude.{
  Bool, Bytes, List, Option, [], any, bytes_eq, if◌then◌else◌, is_empty, length, ltb, none, not,
  some, ℕ, ◌&&◌, ◌++◌, ◌+◌, ◌==◌, ◌||◌, ◌∷◌,
}
use callbook_rs.Prelude.Order.{lt_bytes}
use callbook_rs.Prelude.TextSet.{insert_text}
use callbook_rs.Modern.Snapshot.{ResolvedInterest}
use callbook_rs.Interest.{InterestTable, interest_codes_of, resolve_raw}
use callbook_rs.Report.{vintage_rank}
use callbook_rs.Scan.{RecordScan, RecordKey, interest_record_key, trim_lossy, scan_dat}

pub record InterestCodeExample : Type 0 where
  pub callsign : Bytes
  pub vintage : Option ℕ

-- Also an entry of the map of accumulators, with its key.
pub record UnknownInterestCode : Type 0 where
  pub code : Bytes
  pub occurrences : ℕ
  pub current_occurrences : ℕ
  pub archive_occurrences : ℕ
  pub examples : List InterestCodeExample

-- The fields of `InterestScan` that outlast a record.
pub record InterestTotals : Type 0 where
  pub current_calls : List Bytes
  pub current_calls_resolved : List Bytes
  pub current_snapshots : ℕ
  pub archive_snapshots : ℕ
  pub unknown_codes : List UnknownInterestCode

pub record InterestStatistics : Type 0 where
  pub catalog_entries : ℕ
  pub current_callsigns_with_interests : ℕ
  pub current_snapshots_with_interests : ℕ
  pub archive_snapshots_with_interests : ℕ
  pub current_callsigns_with_resolved_interests : ℕ
  pub unknown_codes : List UnknownInterestCode

abbrev pub new_totals : InterestTotals
new_totals = record {
  current_calls = [];
  current_calls_resolved = [];
  current_snapshots = 0;
  archive_snapshots = 0;
  unknown_codes = [];
}

-- One in the count of current records, or of archive records.
abbrev pub one_current : Option ℕ → ℕ
one_current none = 1
one_current (some year) = 0

abbrev pub one_archive : Option ℕ → ℕ
one_archive none = 0
one_archive (some year) = 1

unfoldable pub is_example : RecordKey → InterestCodeExample → Bool
unfolding bytes_eq
is_example parts item =
    bytes_eq item.callsign parts.0 && vintage_rank item.vintage == vintage_rank parts.1

unfoldable pub add_example : RecordKey → List InterestCodeExample → List InterestCodeExample
unfolding is_example
add_example parts examples =
    if ltb (length examples) 3 && not (any (is_example parts) examples)
    then examples ++ (record { callsign = parts.0; vintage = parts.1 } ∷ [])
    else examples

unfoldable pub add_occurrence : RecordKey → UnknownInterestCode → UnknownInterestCode
unfolding add_example
add_occurrence parts acc = record acc {
  occurrences = acc.occurrences + 1;
  current_occurrences = acc.current_occurrences + one_current parts.1;
  archive_occurrences = acc.archive_occurrences + one_archive parts.1;
  examples = add_example parts acc.examples;
}

abbrev pub default_unknown : Bytes → UnknownInterestCode
default_unknown code = record {
  code = code;
  occurrences = 0;
  current_occurrences = 0;
  archive_occurrences = 0;
  examples = [];
}

-- `entry(code).or_default()` and the update, in the list of entries by code.
unfoldable pub count_unknown :
    RecordKey → Bytes → List UnknownInterestCode → List UnknownInterestCode
unfolding add_occurrence lt_bytes
count_unknown parts code [] = add_occurrence parts (default_unknown code) ∷ []
count_unknown parts code (acc ∷ accs) =
    let rest = count_unknown parts code accs in
    if lt_bytes code acc.code
    then add_occurrence parts (default_unknown code) ∷ acc ∷ accs
    else if lt_bytes acc.code code
    then acc ∷ rest
    else add_occurrence parts acc ∷ accs

abbrev pub is_resolved : List ResolvedInterest → Bytes → Bool
is_resolved resolved code = any (λ interest. bytes_eq interest.code code) resolved

-- The loop over the codes.
unfoldable pub count_codes :
    RecordKey
    → List ResolvedInterest
    → List Bytes
    → List UnknownInterestCode
    → List UnknownInterestCode
unfolding count_unknown bytes_eq
count_codes parts resolved [] unknown = unknown
count_codes parts resolved (code ∷ codes) unknown =
    count_codes parts resolved codes
      (if is_resolved resolved code then unknown else count_unknown parts code unknown)

unfoldable pub count_snapshot : RecordKey → List ResolvedInterest → InterestTotals → InterestTotals
unfolding insert_text
count_snapshot (callsign, none) resolved totals = record totals {
  current_snapshots = totals.current_snapshots + 1;
  current_calls = insert_text callsign totals.current_calls;
  current_calls_resolved =
      if is_empty resolved
      then totals.current_calls_resolved
      else insert_text callsign totals.current_calls_resolved;
}
count_snapshot (callsign, some year) resolved totals = record totals {
  archive_snapshots = totals.archive_snapshots + 1;
}

abbrev pub resolve_by : Option InterestTable → Bytes → List ResolvedInterest
resolve_by none raw = []
resolve_by (some table) raw = resolve_raw table raw

-- The counts of a record with codes.
unfoldable pub count_interest_record :
    RecordKey → List ResolvedInterest → List Bytes → InterestTotals → InterestTotals
unfolding count_snapshot count_codes
count_interest_record parts resolved codes totals = record (count_snapshot parts resolved totals) {
  unknown_codes = count_codes parts resolved codes totals.unknown_codes;
}

module _ (from_utf8_lossy : Bytes → Bytes) (table : Option InterestTable) where
  abbrev pub count_keyed : Option RecordKey → Bytes → InterestTotals → InterestTotals
  count_keyed none text totals = totals
  count_keyed (some parts) text totals =
      let codes = interest_codes_of text in
      if is_empty text || is_empty codes
      then totals
      else count_interest_record parts (resolve_by table text) codes totals

  unfoldable pub count_interests : Bytes → Bytes → InterestTotals → InterestTotals
  unfolding interest_record_key trim_lossy interest_codes_of resolve_raw count_interest_record
  count_interests key interest_raw totals =
      if is_empty interest_raw
      then totals
      else count_keyed (interest_record_key from_utf8_lossy key)
          (trim_lossy from_utf8_lossy interest_raw) totals

  -- `finish_record`.
  unfoldable pub finish_interest_record : RecordScan → InterestTotals → InterestTotals
  unfolding count_interests
  finish_interest_record scan totals =
      if scan.in_record then count_interests scan.key scan.interest_raw totals else totals

  -- `interest_statistics` of a database with a V2 shard.
  unfoldable pub interest_statistics : ℕ → Bytes → InterestStatistics
  unfolding scan_dat finish_interest_record
  interest_statistics catalog_entries dat_mmap =
      let totals = scan_dat finish_interest_record dat_mmap new_totals in
      record {
        catalog_entries = catalog_entries;
        current_callsigns_with_interests = length totals.current_calls;
        current_snapshots_with_interests = totals.current_snapshots;
        archive_snapshots_with_interests = totals.archive_snapshots;
        current_callsigns_with_resolved_interests = length totals.current_calls_resolved;
        unknown_codes = totals.unknown_codes;
      }
