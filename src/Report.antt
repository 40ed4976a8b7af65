-- ===== src/Report.antt =====
-- The report of one callsign in crates/callbook/src/db.rs: `merge_snapshot`, and the part of
-- `lookup_report_with_scratch` behind the queries to the sources, whose snapshots are given.
pub mod Key
pub mod History
pub mod Invariant
pub mod Complete
use callbook_rs.Prelude.{
  ℕ, zero, suc, Bool, true, false, Bytes, List, [], ◌∷◌, ◌++◌, Option, none, some, ltb, ◌==◌, ◌&&◌,
  ◌||◌, if◌then◌else◌, bytes_eq, is_empty, is_some,
}
use callbook_rs.Prelude.Order.{lt_bytes}
use callbook_rs.Modern.Snapshot.{CallSnapshot, LookupResult, LookupStatus}
use callbook_rs.Modern.Merge.{merge_missing_from}

-- The place of a vintage in the derived order of `Option<u16>`, where `None` comes first; it is
-- injective, and so decides equality too.
abbrev pub vintage_rank : Option ℕ → ℕ
vintage_rank none = 0
vintage_rank (some year) = suc year

-- `item.callsign == snapshot.callsign && item.vintage == snapshot.vintage`.
unfoldable pub same_key : CallSnapshot → CallSnapshot → Bool
same_key item snapshot =
    bytes_eq item.callsign snapshot.callsign
    && vintage_rank item.vintage == vintage_rank snapshot.vintage

-- `find` with `merge_missing_from` on what it finds, and `push` where it finds nothing.
unfoldable pub merge_history : List CallSnapshot → CallSnapshot → List CallSnapshot
unfolding same_key merge_missing_from
merge_history [] snapshot = snapshot ∷ []
merge_history (item ∷ history) snapshot =
    let rest = merge_history history snapshot in
    if same_key item snapshot then merge_missing_from item snapshot ∷ history else item ∷ rest

abbrev pub merge_current : Option CallSnapshot → CallSnapshot → Option CallSnapshot
merge_current none snapshot = some snapshot
merge_current (some existing) snapshot = some (merge_missing_from existing snapshot)

-- The variables `current` and `history` of the lookup.
pub record Found : Type 0 where
  pub current : Option CallSnapshot
  pub history : List CallSnapshot

abbrev pub merge_by_vintage : Option ℕ → Found → CallSnapshot → Found
merge_by_vintage none found snapshot = record found {
  current = merge_current found.current snapshot;
}
merge_by_vintage (some year) found snapshot = record found {
  history = merge_history found.history snapshot;
}

unfoldable pub merge_snapshot : Found → CallSnapshot → Found
unfolding merge_history
merge_snapshot found snapshot = merge_by_vintage snapshot.vintage found snapshot

-- A `for` loop over snapshots.
unfoldable pub merge_snapshots : Found → List CallSnapshot → Found
unfolding merge_snapshot
merge_snapshots found [] = found
merge_snapshots found (snapshot ∷ snapshots) =
    merge_snapshots (merge_snapshot found snapshot) snapshots

-- The comparison of `sort_by`: by vintage, then by callsign.
unfoldable pub precedes : CallSnapshot → CallSnapshot → Bool
precedes a b =
    ltb (vintage_rank a.vintage) (vintage_rank b.vintage)
    || (vintage_rank a.vintage == vintage_rank b.vintage && lt_bytes a.callsign b.callsign)

unfoldable pub insert_history : CallSnapshot → List CallSnapshot → List CallSnapshot
unfolding precedes
insert_history snapshot [] = snapshot ∷ []
insert_history snapshot (item ∷ history) =
    let rest = insert_history snapshot history in
    if precedes item snapshot then item ∷ rest else snapshot ∷ item ∷ history

-- `sort_by` is stable, so its result is that of inserting each element before its equals.
unfoldable pub sort_history : List CallSnapshot → List CallSnapshot
unfolding insert_history
sort_history [] = []
sort_history (snapshot ∷ history) = insert_history snapshot (sort_history history)

abbrev pub status_of : Option CallSnapshot → List CallSnapshot → LookupStatus
status_of current history =
    if is_some current
    then LookupStatus.current
    else if is_empty history
    then LookupStatus.not_found
    else LookupStatus.archive_only

-- `us` is the current snapshot of the FCC catalogue, `dat` and `hci` are the snapshots that
-- `lookup_dat_idx` and `lookup_hci_into` yield.
unfoldable pub lookup_report :
    Bytes → Option CallSnapshot → List CallSnapshot → List CallSnapshot → LookupResult
unfolding merge_snapshots sort_history
lookup_report query us dat hci =
    let found = merge_snapshots (merge_snapshots (record { current = us; history = [] }) dat) hci in
    let history = sort_history found.history in
    record {
      query = query;
      status = status_of found.current history;
      current = found.current;
      history = history;
    }
