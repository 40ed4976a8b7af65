-- ===== src/Dat/Statistics.antt =====
-- `record_statistics` of db.rs: the counts of records by jurisdiction and by year.
pub mod Totals
use callbook_rs.Prelude.{
  Bool, Bytes, List, Option, [], if◌then◌else◌, length, ltb, map_option, none, or_else, some,
  unwrap_or, ℕ, ◌+◌, ◌==◌, ◌>>=◌, ◌∷◌,
}
use callbook_rs.Prelude.Order.{lt_bytes}
use callbook_rs.Modern.Snapshot.{Jurisdiction, united_states, canada, international, unknown}
use callbook_rs.Country.Parse.{CountryMatch}
use callbook_rs.IdxText.Line.{TextEntry}
use callbook_rs.IdxText.Build.{iter}
use callbook_rs.Hci.Stats.{CallsignPostingStatistics, callsign_posting_statistics}
use callbook_rs.Scan.{RecordKey}
use callbook_rs.Dat.Query.{V2Shard}
use callbook_rs.Dat.Entries.{stat_key_parts}

pub record JurisdictionCounts : Type 0 where
  pub united_states_count : ℕ
  pub canada_count : ℕ
  pub international_count : ℕ
  pub unknown_count : ℕ

abbrev pub default_counts : JurisdictionCounts
default_counts = record {
  united_states_count = 0;
  canada_count = 0;
  international_count = 0;
  unknown_count = 0;
}

unfoldable pub total : JurisdictionCounts → ℕ
total counts =
    counts.united_states_count + counts.canada_count + counts.international_count
    + counts.unknown_count

unfoldable pub increment : Jurisdiction → JurisdictionCounts → JurisdictionCounts
increment united_states counts = record counts {
  united_states_count = counts.united_states_count + 1;
}
increment canada counts = record counts { canada_count = counts.canada_count + 1 }
increment international counts = record counts {
  international_count = counts.international_count + 1;
}
increment unknown counts = record counts { unknown_count = counts.unknown_count + 1 }

pub record ArchiveYearStatistics : Type 0 where
  pub year : ℕ
  pub counts : JurisdictionCounts

pub record RecordStatistics : Type 0 where
  pub current : JurisdictionCounts
  pub archive : JurisdictionCounts
  pub modern_idx_current_records : ℕ
  pub modern_idx_archive_records : ℕ
  pub us_csv_current_records : ℕ
  pub total_records_including_archive : ℕ
  pub archive_years : List ArchiveYearStatistics
  pub hci_callsigns : Option CallsignPostingStatistics

abbrev pub Countries : Type 0
Countries = Option (Bytes → Option CountryMatch)

-- The main table, and then the fallback.
unfoldable pub classify_callsign : Countries → Countries → Bytes → Jurisdiction
classify_callsign countries pc_countries callsign =
    unwrap_or
      (map_option (λ country. country.jurisdiction)
        (or_else (countries >>= λ lookup. lookup callsign)
          (pc_countries >>= λ lookup. lookup callsign)))
      unknown

-- `entry(year).or_default().increment(jurisdiction)`, in the list of entries by year.
unfoldable pub count_year :
    ℕ → Jurisdiction → List ArchiveYearStatistics → List ArchiveYearStatistics
unfolding increment
count_year year j [] = record { year = year; counts = increment j default_counts } ∷ []
count_year year j (item ∷ items) =
    let rest = count_year year j items in
    if ltb year item.year
    then record { year = year; counts = increment j default_counts } ∷ item ∷ items
    else if year == item.year
    then record item { counts = increment j item.counts } ∷ items
    else item ∷ rest

-- `entry(callsign).or_insert(jurisdiction)`, in the list of entries by callsign.
unfoldable pub or_insert :
    Bytes → Jurisdiction → List (Bytes × Jurisdiction) → List (Bytes × Jurisdiction)
unfolding lt_bytes
or_insert callsign j [] = (callsign, j) ∷ []
or_insert callsign j ((c, k) ∷ calls) =
    let rest = or_insert callsign j calls in
    if lt_bytes callsign c
    then (callsign, j) ∷ (c, k) ∷ calls
    else if lt_bytes c callsign
    then (c, k) ∷ rest
    else (c, k) ∷ calls

-- The variables of the loops.
pub record RecordTallies : Type 0 where
  pub current_calls : List (Bytes × Jurisdiction)
  pub archive : JurisdictionCounts
  pub archive_years : List ArchiveYearStatistics
  pub modern_idx_current_records : ℕ
  pub modern_idx_archive_records : ℕ

abbrev pub new_tallies : RecordTallies
new_tallies = record {
  current_calls = [];
  archive = default_counts;
  archive_years = [];
  modern_idx_current_records = 0;
  modern_idx_archive_records = 0;
}

unfoldable pub tally_record : Jurisdiction → RecordKey → RecordTallies → RecordTallies
unfolding or_insert increment count_year
tally_record j (callsign, none) tallies = record tallies {
  modern_idx_current_records = tallies.modern_idx_current_records + 1;
  current_calls = or_insert callsign j tallies.current_calls;
}
tally_record j (callsign, some year) tallies = record tallies {
  modern_idx_archive_records = tallies.modern_idx_archive_records + 1;
  archive = increment j tallies.archive;
  archive_years = count_year year j tallies.archive_years;
}

-- The loop over the current-US catalogue.
unfoldable pub tally_us_csv : List Bytes → RecordTallies → RecordTallies
unfolding or_insert
tally_us_csv [] tallies = tallies
tally_us_csv (callsign ∷ callsigns) tallies =
    tally_us_csv callsigns
      (record tallies { current_calls = or_insert callsign united_states tallies.current_calls })

-- The loop over the values of the map.
unfoldable pub count_current : List (Bytes × Jurisdiction) → JurisdictionCounts → JurisdictionCounts
unfolding increment
count_current [] counts = counts
count_current ((callsign, j) ∷ calls) counts = count_current calls (increment j counts)

abbrev pub us_callsigns : V2Shard → List Bytes
us_callsigns v2 = unwrap_or (map_option (λ us. us.callsigns) v2.us_csv) []

module _ (is_utf8 : Bytes → Bool) (classify : Bytes → Jurisdiction) where
  abbrev pub tally_keyed : Option RecordKey → RecordTallies → RecordTallies
  tally_keyed none tallies = tallies
  tally_keyed (some parts) tallies = tally_record (classify parts.0) parts tallies

  -- The loop over the index.
  unfoldable pub tally_index : List TextEntry → RecordTallies → RecordTallies
  unfolding tally_record stat_key_parts
  tally_index [] tallies = tallies
  tally_index (entry ∷ entries) tallies =
      tally_index entries (tally_keyed (stat_key_parts is_utf8 entry.key) tallies)

  unfoldable pub tally_shard : Option V2Shard → RecordTallies
  unfolding tally_index tally_us_csv iter
  tally_shard none = new_tallies
  tally_shard (some v2) = tally_us_csv (us_callsigns v2) (tally_index (iter v2.idx) new_tallies)

-- `UsCsvFile::len`.
abbrev pub us_csv_len : Option V2Shard → ℕ
us_csv_len shard = unwrap_or (shard >>= λ v2. map_option (λ us. length us.records) v2.us_csv) 0

abbrev pub statistics_of : ℕ → Option CallsignPostingStatistics → RecordTallies → RecordStatistics
statistics_of us_csv_current_records hci_callsigns tallies =
    let current = count_current tallies.current_calls default_counts in
    record {
      current = current;
      archive = tallies.archive;
      modern_idx_current_records = tallies.modern_idx_current_records;
      modern_idx_archive_records = tallies.modern_idx_archive_records;
      us_csv_current_records = us_csv_current_records;
      total_records_including_archive = total current + total tallies.archive;
      archive_years = tallies.archive_years;
      hci_callsigns = hci_callsigns;
    }

abbrev pub countries_of : Option V2Shard → Countries
countries_of shard = shard >>= λ v2. v2.countries

-- `pc_countries`, which the lookups do not read, is an argument.
unfoldable pub record_statistics : (Bytes → Bool) → Countries → Option V2Shard → RecordStatistics
unfolding tally_shard classify_callsign count_current total callsign_posting_statistics
record_statistics is_utf8 pc_countries shard =
    statistics_of (us_csv_len shard)
      (map_option callsign_posting_statistics (shard >>= λ v2. v2.hci))
      (tally_shard is_utf8 (classify_callsign (countries_of shard) pc_countries) shard)
