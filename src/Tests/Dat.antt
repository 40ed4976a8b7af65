-- ===== src/Tests/Dat.antt =====
-- From postings to records.
use callbook_rs.Prelude.Order.{lt_bytes}
use callbook_rs.IdxText.Line.{parse_index_line, walk_back}
use callbook_rs.Hci.Posting.{visit_postings}
use callbook_rs.Hci.Header.{decoded_header_matches}
use callbook_rs.Hci.Data.{raw_record}
use callbook_rs.Prelude.Search.{partition_point}
use callbook_rs.Dat.Entries.{kept, all_entries}
use callbook_rs.Dat.Entries.Distinct.{distinct, named_callsigns, all_entries-distinct}
use callbook_rs.Dat.Statistics.{Countries, RecordStatistics, total, record_statistics}
use callbook_rs.Dat.Statistics.Totals.{sum_years, catalogued, record_statistics_totals}
use callbook_rs.Prelude.{
  All, Bytes, List, Option, [], arith, codes, false, filter_map, is_ascii_whitespace, length, map,
  map_option, none, refl, some, true, ◌++◌, ◌+◌, ◌<◌, ◌∷◌, ◌≡◌, ◌≤◌,
}
use callbook_rs.Prelude.Trim.{Fails, trim, trim_end, trim_start}
use callbook_rs.Cipher.{decode_from, unmask}
use callbook_rs.Error.{Result, ok, err}
use callbook_rs.Callsign.{Callsign, parse, as_str, strip_ascii_whitespace, fill_key}
use callbook_rs.Dat.Report.{lookup_callsign, IsOrdered, lookup_callsign-IsOrdered}
use callbook_rs.Modern.Snapshot.{CallSnapshot, LookupResult, LookupStatus, not_found_result}
use callbook_rs.IdxText.Build.{entry_key, text_entry}
use callbook_rs.IdxText.Build.Opened.{opened}
use callbook_rs.Hci.KeyIndex
use callbook_rs.V2Record.Text.{split_key, is_padding}
use callbook_rs.Dat.{RecordBoundsTrace, scan_fallback, record_bounds_for_hci_posting, decode_bounds}
use callbook_rs.Dat.Bounds.{is_b5, decode_bounds-record_bounds}
use callbook_rs.Dat.Query.{
  lookup_dat_idx, V2Shard, lookup_hci, visit_hci_lookup_keys, hci_archive_key, raw_record_for,
}
use callbook_rs.Dat.Keys.{split_key-hci_archive_key}
use callbook_rs.Dat.Callsigns.{HaveCallsign, lookup_hci-HaveCallsign}

-- Two records; the stream is its own inverse.
abbrev dat_mmap : Bytes
dat_mmap =
    decode_from 0
      ((0xb5 ∷ codes "K1") ++ (0xb8 ∷ codes "JOE") ++ (0xb5 ∷ codes "W2X") ++ (0xb8 ∷ codes "ANN"))

-- The key K1 with a posting into the first record and one into the second.
abbrev hci_mmap : Bytes
hci_mmap =
    decode_from 0 (codes "K1" ++ (0xb5 ∷ [])) ++ (0 ∷ 0 ∷ 0 ∷ 3 ∷ 0 ∷ 0 ∷ 0 ∷ 0 ∷ 8 ∷ 0 ∷ 255 ∷ [])

abbrev v2 : V2Shard
v2 = record {
  idx = opened 2 (codes "K1 0" ∷ codes "W2X 7" ∷ []) [];
  dat_mmap = dat_mmap;
  hci = some (KeyIndex.opened (0 ∷ 0 ∷ 0 ∷ 0 ∷ []) hci_mmap);
  us_csv = none;
  countries = none;
  interests = none;
}

abbrev bounds : RecordBoundsTrace
bounds = record {
  start = 0;
  end = 7;
  source = scan_fallback;
  backward_scan_bytes = some 3;
  forward_scan_bytes = some 4;
}

inside_first : record_bounds_for_hci_posting dat_mmap 3 ≡ some bounds
unfolding record_bounds_for_hci_posting decode_from unmask
inside_first = refl

found_calls :
    map_option
      (map {B = Bytes × Option Bytes} (λ s. (s.callsign, s.first_name)))
      (lookup_hci v2 (codes "K1"))
    ≡ some ((codes "K1", some (codes "JOE")) ∷ [])
unfolding lookup_hci trim trim_end trim_start KeyIndex.build_key_index decode_from unmask
    partition_point raw_record decoded_header_matches visit_postings is_padding
found_calls = refl

lookup_keys :
    visit_hci_lookup_keys (codes "w2x") (1999 ∷ [])
    ≡ some (codes "W2X" ∷ codes "2X" ∷ codes "W2X:1999" ∷ codes "2X:1999" ∷ [])
unfolding visit_hci_lookup_keys trim trim_end trim_start
lookup_keys = refl

first_raw :
    map_option (λ r. r.raw_len) (raw_record_for v2 (record { key = codes "K1"; dat_offset = 0 }))
    ≡ some 7
unfolding raw_record_for decode_from partition_point parse_index_line walk_back trim_end lt_bytes
    entry_key text_entry
first_raw = refl

decode_bounds-record_bounds_example :
    (0 ≤ 3)
    × (3 < 7)
    × (7 ≤ length dat_mmap)
    × (rest : Bytes) × (decode_bounds dat_mmap 0 7 ≡ 0xb5 ∷ rest)
    × All (Fails is_b5) rest
unfolding decode_from
decode_bounds-record_bounds_example =
    decode_bounds-record_bounds dat_mmap 3 bounds (omega arith) inside_first

split_key-hci_archive_key_example :
    (key : Bytes) × (hci_archive_key (codes "K1") 1999 ≡ some key)
    × (split_key key ≡ some (codes "K1", some 1999))
split_key-hci_archive_key_example =
    split_key-hci_archive_key (codes "K1") 1999 (refl, (refl, tt)) (omega arith) (omega arith)

abbrev snapshots_of : Option (List CallSnapshot) → List CallSnapshot
snapshots_of none = []
snapshots_of (some snapshots) = snapshots

k1_found : lookup_hci v2 (codes "K1") ≡ some (snapshots_of (lookup_hci v2 (codes "K1")))
unfolding lookup_hci trim trim_end trim_start
k1_found = refl

lookup_hci-HaveCallsign_example :
    HaveCallsign (codes "K1") (snapshots_of (lookup_hci v2 (codes "K1")))
lookup_hci-HaveCallsign_example =
    lookup_hci-HaveCallsign v2 (codes "K1") (snapshots_of (lookup_hci v2 (codes "K1"))) k1_found

dated_call :
    map {B = Bytes × Option Bytes}
      (λ s. (s.callsign, s.first_name))
      (lookup_dat_idx v2 (codes "W2X"))
    ≡ (codes "W2X", some (codes "ANN")) ∷ []
unfolding lookup_dat_idx partition_point parse_index_line walk_back trim_end lt_bytes entry_key
    text_entry decode_from unmask trim trim_start is_padding
dated_call = refl

abbrev report_of : Option (Result LookupResult) → LookupResult
report_of none = not_found_result []
report_of (some (err e)) = not_found_result []
report_of (some (ok report)) = report

abbrev w2x_report : LookupResult
w2x_report = report_of (lookup_callsign (some v2) (codes " w2x"))

w2x_reported : lookup_callsign (some v2) (codes " w2x") ≡ some (ok w2x_report)
unfolding lookup_callsign strip_ascii_whitespace trim trim_end trim_start is_ascii_whitespace
    fill_key
w2x_reported = refl

w2x_status : (w2x_report.status ≡ LookupStatus.current) × (w2x_report.query ≡ codes "W2X")
unfolding lookup_callsign strip_ascii_whitespace trim trim_end trim_start is_ascii_whitespace
    fill_key KeyIndex.build_key_index decode_from unmask partition_point parse_index_line walk_back
    lt_bytes entry_key text_entry is_padding
w2x_status = (refl, refl)

lookup_callsign-IsOrdered_example :
    (key : Callsign) × (parse (codes " w2x") ≡ ok key)
    × (w2x_report.query ≡ as_str key)
    × IsOrdered w2x_report
lookup_callsign-IsOrdered_example =
    lookup_callsign-IsOrdered (some v2) (codes " w2x") w2x_report w2x_reported

all_entries-distinct_example :
    all_entries (λ bytes. true) false (some v2)
    ≡ filter_map
        (kept (λ bytes. true) false (lookup_callsign (some v2)))
        (distinct [] (named_callsigns (λ bytes. true) false (some v2)))
all_entries-distinct_example = all_entries-distinct (λ bytes. true) false (some v2)

abbrev no_countries : Countries
no_countries = none

abbrev v2_statistics : RecordStatistics
v2_statistics = record_statistics (λ bytes. true) no_countries (some v2)

record_statistics_totals_example :
    (total v2_statistics.archive ≡ v2_statistics.modern_idx_archive_records)
    × (sum_years v2_statistics.archive_years ≡ v2_statistics.modern_idx_archive_records)
    × (total v2_statistics.current
        ≤ v2_statistics.modern_idx_current_records + catalogued (some v2))
    × (v2_statistics.total_records_including_archive
        ≡ total v2_statistics.current + v2_statistics.modern_idx_archive_records)
record_statistics_totals_example = record_statistics_totals (λ bytes. true) no_countries (some v2)
