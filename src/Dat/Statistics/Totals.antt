-- ===== src/Dat/Statistics/Totals.antt =====
-- The totals of the record statistics.
use callbook_rs.Prelude.{
  Bool, Bytes, List, Option, [], arith, length, none, refl, ℕ, ◌+◌, ◌∷◌, ◌≡◌, ◌≤◌,
}
use callbook_rs.Modern.Snapshot.{Jurisdiction, united_states, canada, international, unknown}
use callbook_rs.IdxText.Line.{TextEntry}
use callbook_rs.IdxText.Build.{iter}
use callbook_rs.Scan.{RecordKey}
use callbook_rs.Dat.Query.{V2Shard}
use callbook_rs.Dat.Entries.{stat_key_parts}
use callbook_rs.Dat.Statistics.{
  JurisdictionCounts, default_counts, total, increment, ArchiveYearStatistics, Countries,
  classify_callsign, count_year, or_insert, RecordTallies, new_tallies, tally_record, tally_us_csv,
  count_current, tally_keyed, tally_index, us_callsigns, tally_shard, countries_of,
  record_statistics, some,
}

abbrev pub sum_years : List ArchiveYearStatistics → ℕ
sum_years [] = 0
sum_years (item ∷ items) = total item.counts + sum_years items

total-increment :
    (j : Jurisdiction) (counts : JurisdictionCounts) → total (increment j counts) ≡ total counts + 1
unfolding total increment
total-increment united_states counts = omega arith
total-increment canada counts = omega arith
total-increment international counts = omega arith
total-increment unknown counts = omega arith

total-default_counts : total default_counts ≡ 0
unfolding total
total-default_counts = omega arith

sum_years-count_year :
    (year : ℕ) (j : Jurisdiction) (items : List ArchiveYearStatistics)
    → sum_years (count_year year j items) ≡ sum_years items + 1
unfolding count_year
sum_years-count_year year j [] =
    omega (arith, total-increment j default_counts, total-default_counts)
sum_years-count_year year j (item ∷ items) = ground (
  arith,
  total-increment j default_counts,
  total-default_counts,
  total-increment j item.counts,
  sum_years-count_year year j items,
)

length-or_insert :
    (callsign : Bytes) (j : Jurisdiction) (calls : List (Bytes × Jurisdiction))
    → length (or_insert callsign j calls) ≤ length calls + 1
unfolding or_insert
length-or_insert callsign j [] = omega arith
length-or_insert callsign j ((c, k) ∷ calls) = ground (arith, length-or_insert callsign j calls)

total-count_current :
    (calls : List (Bytes × Jurisdiction)) (counts : JurisdictionCounts)
    → total (count_current calls counts) ≡ total counts + length calls
unfolding count_current
total-count_current [] counts = omega arith
total-count_current ((c, j) ∷ calls) counts =
    omega (arith, total-count_current calls (increment j counts), total-increment j counts)

-- The invariant of the loop over the index; `more` callsigns come from the catalogue.
abbrev Agrees : ℕ → RecordTallies → Type 0
Agrees more tallies =
    (total tallies.archive ≡ tallies.modern_idx_archive_records)
    × (sum_years tallies.archive_years ≡ tallies.modern_idx_archive_records)
    × (length tallies.current_calls ≤ tallies.modern_idx_current_records + more)

tally_record-Agrees :
    (j : Jurisdiction) (parts : RecordKey) (tallies : RecordTallies)
    → Agrees 0 tallies
    → Agrees 0 (tally_record j parts tallies)
unfolding tally_record
tally_record-Agrees j (callsign, none) tallies (a, y, c) =
    (a, y, omega (arith, c, length-or_insert callsign j tallies.current_calls))
tally_record-Agrees j (callsign, some year) tallies (a, y, c) = (
  omega (arith, a, total-increment j tallies.archive),
  omega (arith, y, sum_years-count_year year j tallies.archive_years),
  c,
)

tally_us_csv-Agrees :
    (callsigns : List Bytes) (more : ℕ) (tallies : RecordTallies)
    → Agrees more tallies
    → Agrees (more + length callsigns) (tally_us_csv callsigns tallies)
unfolding tally_us_csv
tally_us_csv-Agrees [] more tallies (a, y, c) = (a, y, omega (arith, c))
tally_us_csv-Agrees (callsign ∷ callsigns) more tallies (a, y, c) =
    let next : RecordTallies = record tallies {
      current_calls = or_insert callsign united_states tallies.current_calls;
    } in
    let (a', y', c') =
      tally_us_csv-Agrees callsigns (more + 1) next
        (a, y, omega (arith, c, length-or_insert callsign united_states tallies.current_calls)) in
    (a', y', omega (arith, c'))

new_tallies-Agrees : Agrees 0 new_tallies
new_tallies-Agrees = (total-default_counts, refl, omega arith)

-- The callsigns of the current-US catalogue.
abbrev pub catalogued : Option V2Shard → ℕ
catalogued none = 0
catalogued (some v2) = length (us_callsigns v2)

module _ (is_utf8 : Bytes → Bool) (classify : Bytes → Jurisdiction) where
  tally_keyed-Agrees :
      (o : Option RecordKey) (tallies : RecordTallies)
      → Agrees 0 tallies
      → Agrees 0 (tally_keyed is_utf8 classify o tallies)
  tally_keyed-Agrees none tallies h = h
  tally_keyed-Agrees (some parts) tallies h = tally_record-Agrees (classify parts.0) parts tallies h

  tally_index-Agrees :
      (entries : List TextEntry) (tallies : RecordTallies)
      → Agrees 0 tallies
      → Agrees 0 (tally_index is_utf8 classify entries tallies)
  unfolding tally_index
  tally_index-Agrees [] tallies h = h
  tally_index-Agrees (entry ∷ entries) tallies h =
      tally_index-Agrees entries
        (tally_keyed is_utf8 classify (stat_key_parts is_utf8 entry.key) tallies)
        (tally_keyed-Agrees (stat_key_parts is_utf8 entry.key) tallies h)

  tally_shard-Agrees :
      (shard : Option V2Shard) → Agrees (catalogued shard) (tally_shard is_utf8 classify shard)
  unfolding tally_shard
  tally_shard-Agrees none = (total-default_counts, refl, omega arith)
  tally_shard-Agrees (some v2) =
      let (a, y, c) =
        tally_us_csv-Agrees (us_callsigns v2) 0
          (tally_index is_utf8 classify (iter v2.idx) new_tallies)
          (tally_index-Agrees (iter v2.idx) new_tallies new_tallies-Agrees) in
      (a, y, omega (arith, c))

-- In the record statistics the archive counts by jurisdiction, and the counts by year, each sum up
-- to the number of archive records of the index; the current callsigns are at most as many as the
-- current records of the index and the callsigns of the current-US catalogue; and the total is that
-- of the current callsigns and the archive records.
pub record_statistics_totals :
    (is_utf8 : Bytes → Bool) (pc_countries : Countries) (shard : Option V2Shard)
    → (let statistics = record_statistics is_utf8 pc_countries shard in
        (total statistics.archive ≡ statistics.modern_idx_archive_records)
        × (sum_years statistics.archive_years ≡ statistics.modern_idx_archive_records)
        × (total statistics.current ≤ statistics.modern_idx_current_records + catalogued shard)
        × (statistics.total_records_including_archive
            ≡ total statistics.current + statistics.modern_idx_archive_records))
unfolding record_statistics
record_statistics_totals is_utf8 pc_countries shard =
    let classify = classify_callsign (countries_of shard) pc_countries in
    let tallies = tally_shard is_utf8 classify shard in
    let (a, y, c) = tally_shard-Agrees is_utf8 classify shard in
    (
      a,
      y,
      omega (
        arith,
        c,
        total-count_current tallies.current_calls default_counts,
        total-default_counts,
      ),
      omega (arith, a),
    )
