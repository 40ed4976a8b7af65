-- ===== src/Tests/Report.antt =====
-- The report of a callsign.
use callbook_rs.Prelude.{codes, refl, ◌≡◌, none, some, List, [], ◌∷◌, ◌||◌, map, ℕ, bytes_eq}
use callbook_rs.Modern.Snapshot.{CallSnapshot, new, ham_call_hci, ham_call_dat_idx, LookupStatus}
use callbook_rs.Report.{lookup_report}
use callbook_rs.Report.History.{HistoryOk}
use callbook_rs.Report.Invariant.{Undated, HistorySorted, lookup_report-HistoryOk}
use callbook_rs.Report.Complete.{
  has_key_of, records, status_from, has_key_of-lookup_report, status-lookup_report,
}

abbrev year_of : ℕ → CallSnapshot
year_of year = new (codes "W1AW") (some year) ham_call_dat_idx

abbrev from_dat : List CallSnapshot
from_dat = year_of 2015 ∷ year_of 2000 ∷ []

abbrev from_hci : List CallSnapshot
from_hci = new (codes "W1AW") (some 2015) ham_call_hci ∷ []

report_history :
    map (λ s. s.vintage) (lookup_report (codes "W1AW") none from_dat from_hci).history
    ≡ some 2000 ∷ some 2015 ∷ []
unfolding lookup_report bytes_eq
report_history = refl

report_status :
    (lookup_report (codes "W1AW") none from_dat from_hci).status ≡ LookupStatus.archive_only
unfolding lookup_report bytes_eq
report_status = refl

lookup_report-HistoryOk_example :
    Undated (lookup_report (codes "W1AW") none from_dat from_hci).current
    × HistoryOk (lookup_report (codes "W1AW") none from_dat from_hci).history
    × HistorySorted (lookup_report (codes "W1AW") none from_dat from_hci).history
lookup_report-HistoryOk_example = lookup_report-HistoryOk (codes "W1AW") none from_dat from_hci tt

has_key_of-lookup_report_example :
    has_key_of (lookup_report (codes "W1AW") none from_dat from_hci).history (year_of 2000)
    ≡ records from_dat (year_of 2000) || records from_hci (year_of 2000)
has_key_of-lookup_report_example =
    has_key_of-lookup_report (codes "W1AW") none from_dat from_hci (year_of 2000)

status-lookup_report_example :
    (lookup_report (codes "W1AW") none from_dat from_hci).status
    ≡ status_from none from_dat from_hci
status-lookup_report_example = status-lookup_report (codes "W1AW") none from_dat from_hci
