-- ===== src/Dat/Report.antt =====
-- `CallBook::lookup_report` of db.rs over its sources: the current-US catalogue, the text index and the
-- inverted index. A panic is `none`.
use callbook_rs.Prelude.{
  Bytes, List, Option, [], ap, arith, map_option, map_option-eq-some, none, refl, some, subst, sym,
  ◌>>=◌, ◌∙◌, ◌≡◌,
}
use callbook_rs.Error.{Result, ok, err}
use callbook_rs.Callsign.{Callsign, parse, as_str}
use callbook_rs.Modern.Snapshot.{CallSnapshot, LookupResult}
use callbook_rs.UsCsv.{UsCsvRecord, get_record, from_us_csv}
use callbook_rs.Report.{lookup_report}
use callbook_rs.Report.History.{HistoryOk}
use callbook_rs.Report.Invariant.{HistorySorted, Undated, lookup_report-HistoryOk}
use callbook_rs.Dat.Query.{V2Shard, lookup_dat_idx, lookup_hci}

unfoldable pub lookup_us_current : Option V2Shard → Bytes → Option UsCsvRecord
unfolding get_record
lookup_us_current shard callsign =
    shard >>= λ v2. v2.us_csv >>= λ us_csv. get_record us_csv callsign

-- The snapshots of the two indexes; without the files there are none.
abbrev pub dat_snapshots : Option V2Shard → Bytes → List CallSnapshot
dat_snapshots none query = []
dat_snapshots (some v2) query = lookup_dat_idx v2 query

abbrev pub hci_snapshots : Option V2Shard → Bytes → Option (List CallSnapshot)
hci_snapshots none query = some []
hci_snapshots (some v2) query = lookup_hci v2 query

unfoldable pub report_for : Option V2Shard → Bytes → Option LookupResult
unfolding lookup_us_current lookup_dat_idx lookup_hci lookup_report from_us_csv
report_for shard query =
    map_option
      (lookup_report query (map_option from_us_csv (lookup_us_current shard query))
        (dat_snapshots shard query))
      (hci_snapshots shard query)

abbrev pub report_parsed : Option V2Shard → Result Callsign → Option (Result LookupResult)
report_parsed shard (err e) = some (err e)
report_parsed shard (ok key) = map_option ok (report_for shard (as_str key))

unfoldable pub lookup_callsign : Option V2Shard → Bytes → Option (Result LookupResult)
unfolding report_for parse as_str
lookup_callsign shard callsign = report_parsed shard (parse callsign)

-- What the reports promise.
abbrev pub IsOrdered : LookupResult → Type 0
IsOrdered report = Undated report.current × HistoryOk report.history × HistorySorted report.history

Undated-from_us_csv : (found : Option UsCsvRecord) → Undated (map_option from_us_csv found)
unfolding from_us_csv
Undated-from_us_csv none = tt
Undated-from_us_csv (some r) = refl

report_for-IsOrdered :
    (shard : Option V2Shard) (query : Bytes) (report : LookupResult)
    → report_for shard query ≡ some report
    → (report.query ≡ query) × IsOrdered report
unfolding report_for lookup_report
report_for-IsOrdered shard query report h =
    let us = map_option from_us_csv (lookup_us_current shard query) in
    let dat = dat_snapshots shard query in
    let (hci, found, is) =
      map_option-eq-some (lookup_report query us dat) (hci_snapshots shard query) h in
    (
      ap (λ r. r.query) (sym is),
      subst IsOrdered is (
          lookup_report-HistoryOk query us dat hci
            (Undated-from_us_csv (lookup_us_current shard query))),
    )

-- A report that `lookup_report` returns is about the normalised callsign; its current record has no
-- vintage, and in its history every entry has one, no two have the same callsign and vintage, and
-- they stand by vintage and then callsign, whatever the files hold.
pub lookup_callsign-IsOrdered :
    (shard : Option V2Shard) (callsign : Bytes) (report : LookupResult)
    → lookup_callsign shard callsign ≡ some (ok report)
    → (key : Callsign) × (parse callsign ≡ ok key) × (report.query ≡ as_str key) × IsOrdered report
unfolding lookup_callsign
lookup_callsign-IsOrdered shard callsign report h = go (parse callsign) refl h
  where
    go :
        (parsed : Result Callsign)
        → parse callsign ≡ parsed
        → report_parsed shard parsed ≡ some (ok report)
        → (key : Callsign) × (parse callsign ≡ ok key)
          × (report.query ≡ as_str key)
          × IsOrdered report
    go (err e) is k = absurd (ground (arith, k))
    go (ok key) is k =
        let (found, at, same) = map_option-eq-some ok (report_for shard (as_str key)) k in
        let one : found ≡ report = cc same in
        let (about, ordered) = report_for-IsOrdered shard (as_str key) report (at ∙ ap some one) in
        (key, is, about, ordered)
