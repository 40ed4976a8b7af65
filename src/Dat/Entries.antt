-- ===== src/Dat/Entries.antt =====
-- `Entries` and `EntryIter` of db.rs: the iteration over the callsigns of a database, and
-- `stat_key_parts`. Whether bytes are UTF-8 is a parameter. A lookup that panics is the item `none`.
pub mod Candidates
pub mod Distinct
use callbook_rs.Prelude.{
  Bool, Bytes, List, Option, [], all, bytes_eq, codes, if◌then◌else◌, is_ascii_digit, is_empty,
  is_some, leb, length, map_option, none, not, or_else, some, suc, then_some, zero, ℕ, ◌&&◌, ◌+◌,
  ◌==◌, ◌>>=◌, ◌||◌, ◌∷◌,
}
use callbook_rs.Prelude.Text.{str_trim, split_once}
use callbook_rs.Prelude.TextSet.{insert_text, has_text}
use callbook_rs.Decimal.{parse_uint}
use callbook_rs.Error.{Result, err, ok}
use callbook_rs.Modern.Snapshot.{LookupResult, not_found}
use callbook_rs.IdxText.Line.{TextEntry}
use callbook_rs.IdxText.Build.{iter}
use callbook_rs.Scan.{RecordKey, is_callsign}
use callbook_rs.Dat.Query.{V2Shard}
use callbook_rs.Dat.Report.{lookup_callsign}

abbrev pub is_archive_year : ℕ → Bool
is_archive_year year = leb 1900 year && leb year 2099

abbrev pub archive_key : Bytes → Option ℕ → Option RecordKey
archive_key callsign none = none
archive_key callsign (some year) =
    then_some (is_archive_year year && is_callsign callsign) (callsign, some year)

abbrev pub stat_parts : Bytes → Option (Bytes × Bytes) → Option RecordKey
stat_parts key none = then_some (is_callsign key) (key, none)
stat_parts key (some (callsign, year)) =
    if length year == 4 && all is_ascii_digit year
    then archive_key callsign (parse_uint 16 year)
    else none

abbrev pub is_sentinel : Bytes → Bool
is_sentinel key = is_empty key || bytes_eq key (codes "!!!") || bytes_eq key (codes "ZZZZZZZZ")

unfoldable pub stat_key_parts : (Bytes → Bool) → Bytes → Option RecordKey
unfolding str_trim split_once parse_uint is_callsign is_ascii_digit bytes_eq
stat_key_parts is_utf8 bytes =
    let key = str_trim bytes in
    if is_utf8 bytes && not (is_sentinel key) then stat_parts key (split_once b':' key) else none

pub data EntryIterPhase : Type 0 where
  modern_phase us_csv_phase done_phase : EntryIterPhase

-- What the iterators of the two sources have still to yield.
pub record EntryIter : Type 0 where
  pub phase : EntryIterPhase
  pub seen : List Bytes
  pub modern_idx : Option (List TextEntry)
  pub us_csv_callsigns : Option (List Bytes)

module _ (is_utf8 : Bytes → Bool) (include_history : Bool) where
  abbrev pub selected : Option RecordKey → Option Bytes
  selected none = none
  selected (some (callsign, vintage)) =
      then_some (include_history || not (is_some vintage)) callsign

  unfoldable pub index_callsign : TextEntry → Option Bytes
  unfolding stat_key_parts
  index_callsign entry = selected (stat_key_parts is_utf8 entry.key)

  -- The loop over the index.
  unfoldable pub next_indexed : List TextEntry → Option (Bytes × List TextEntry)
  unfolding index_callsign
  next_indexed [] = none
  next_indexed (entry ∷ entries) =
      let rest = next_indexed entries in
      or_else (map_option (λ callsign. (callsign, entries)) (index_callsign entry)) rest

  abbrev pub next_current : Option (List Bytes) → EntryIter → Option Bytes × EntryIter
  next_current (some (callsign ∷ callsigns)) entries =
      (some callsign, record entries { us_csv_callsigns = some callsigns })
  next_current callsigns entries = (none, record entries { phase = done_phase })

  abbrev pub next_us_csv : EntryIter → Option Bytes × EntryIter
  next_us_csv entries =
      next_current entries.us_csv_callsigns (record entries { phase = us_csv_phase })

  abbrev pub after_indexed : Option (Bytes × List TextEntry) → EntryIter → Option Bytes × EntryIter
  after_indexed none entries = next_us_csv (record entries { modern_idx = some [] })
  after_indexed (some (callsign, rest)) entries =
      (some callsign, record entries { modern_idx = some rest })

  abbrev pub next_modern : Option (List TextEntry) → EntryIter → Option Bytes × EntryIter
  next_modern none entries = next_us_csv entries
  next_modern (some index) entries = after_indexed (next_indexed index) entries

  abbrev pub next_in : EntryIterPhase → EntryIter → Option Bytes × EntryIter
  next_in modern_phase entries = next_modern entries.modern_idx entries
  next_in us_csv_phase entries = next_us_csv entries
  next_in done_phase entries = (none, entries)

  unfoldable pub next_callsign : EntryIter → Option Bytes × EntryIter
  unfolding next_indexed
  next_callsign entries = next_in entries.phase entries

-- `self.seen.insert`.
abbrev pub enter : Bytes → EntryIter → EntryIter
enter callsign entries = record entries { seen = insert_text callsign entries.seen }

-- The entry that is returned for a report.
abbrev pub Item : Type 0
Item = Option (Result LookupResult)

abbrev pub kept_report : Bool → LookupResult → Option Item
kept_report include_history report =
    if include_history
    then some (some (ok report))
    else then_some (is_some report.current) (some (ok (record report { history = [] })))

abbrev pub kept_item : Bool → Item → Option Item
kept_item include_history none = some none
kept_item include_history (some (err why)) = some (some (err why))
kept_item include_history (some (ok report)) = kept_report include_history report

module _ (is_utf8 : Bytes → Bool) (include_history : Bool) (lookup : Bytes → Item) where
  abbrev pub kept : Bytes → Option Item
  kept callsign = kept_item include_history (lookup callsign)

  -- One round of the loop of `next`, with the rounds behind it.
  abbrev pub after_callsign :
      (EntryIter → Option (Item × EntryIter)) → Option Bytes × EntryIter → Option (Item × EntryIter)
  after_callsign rounds (none, passed) = none
  after_callsign rounds (some callsign, passed) =
      let entered = enter callsign passed in
      let rest = rounds entered in
      if has_text callsign passed.seen
      then rest
      else or_else (map_option (λ item. (item, entered)) (kept callsign)) rest

  -- `next`; the fuel is a bound on the callsigns left.
  unfoldable pub next_item : ℕ → EntryIter → Option (Item × EntryIter)
  unfolding next_callsign insert_text has_text
  next_item zero entries = none
  next_item (suc fuel) entries =
      after_callsign (next_item fuel) (next_callsign is_utf8 include_history entries)

  -- The items that the iterator yields.
  unfoldable pub collect_items : ℕ → EntryIter → List Item
  unfolding next_item
  collect_items zero entries = []
  collect_items (suc fuel) entries = elim (next_item (suc fuel) entries) [
    | none ↦ []
    | some (item, entries') ↦ item ∷ collect_items fuel entries'
  ]

-- `into_iter`.
unfoldable pub entries_of : Option V2Shard → EntryIter
unfolding iter
entries_of shard = record {
  phase = modern_phase;
  seen = [];
  modern_idx = map_option (λ v2. iter v2.idx) shard;
  us_csv_callsigns = shard >>= λ v2. map_option (λ us. us.callsigns) v2.us_csv;
}

abbrev pub left_in {ℓ} : {A : Type ℓ} → Option (List A) → ℕ
left_in none = 0
left_in (some xs) = length xs

-- The entries of a database; a bound on their number is that of the lines and records of its files.
unfoldable pub all_entries : (Bytes → Bool) → Bool → Option V2Shard → List Item
unfolding entries_of collect_items lookup_callsign
all_entries is_utf8 include_history shard =
    let entries = entries_of shard in
    collect_items is_utf8 include_history (lookup_callsign shard)
      (suc (left_in entries.modern_idx + left_in entries.us_csv_callsigns)) entries
