-- ===== src/Scan/Search.antt =====
-- `search_interest`, `normalize_interest_code` and `InterestSearchScan`.
pub mod Matches
use callbook_rs.Prelude.{
  Bool, Bytes, List, Option, [], all, any, bytes_eq, cons_some, if◌then◌else◌, is_ascii_digit,
  is_empty, length, ltb, none, then_some, ℕ, ◌&&◌, ◌++◌, ◌==◌, ◌>>=◌, ◌||◌, ◌∷◌, some,
}
use callbook_rs.Prelude.Order.{lt_bytes}
use callbook_rs.Prelude.Text.{str_trim}
use callbook_rs.Error.{Result, err, ok, invalid_interest_code}
use callbook_rs.Interest.{InterestTable, InterestDefinition, interest_codes_of, lookup_interest}
use callbook_rs.Report.{vintage_rank}
use callbook_rs.Scan.{RecordScan, RecordKey, interest_record_key, trim_lossy, scan_dat}

pub record InterestSearchMatch : Type 0 where
  pub callsign : Bytes
  pub vintage : Option ℕ

pub record InterestSearch : Type 0 where
  pub code : Bytes
  pub definition : Option InterestDefinition
  pub matches : List InterestSearchMatch

unfoldable pub normalize_interest_code : Bytes → Result Bytes
unfolding str_trim is_ascii_digit
normalize_interest_code text =
    let code = str_trim text in
    if length code == 4 && all is_ascii_digit code
    then ok code
    else err (invalid_interest_code code)

-- The comparison of `finish`: the callsign, and then the year, none before every year.
unfoldable pub match_lt : InterestSearchMatch → InterestSearchMatch → Bool
unfolding lt_bytes bytes_eq
match_lt left right =
    lt_bytes left.callsign right.callsign
    || bytes_eq left.callsign right.callsign
      && ltb (vintage_rank left.vintage) (vintage_rank right.vintage)

-- `sort_by` is stable, so its result is that of inserting each element before its equals.
unfoldable pub insert_match :
    InterestSearchMatch → List InterestSearchMatch → List InterestSearchMatch
unfolding match_lt
insert_match found [] = found ∷ []
insert_match found (item ∷ items) =
    let rest = insert_match found items in
    if match_lt item found then item ∷ rest else found ∷ item ∷ items

unfoldable pub sort_matches : List InterestSearchMatch → List InterestSearchMatch
unfolding insert_match
sort_matches [] = []
sort_matches (found ∷ items) = insert_match found (sort_matches items)

unfoldable pub same_match : InterestSearchMatch → InterestSearchMatch → Bool
unfolding bytes_eq
same_match left right =
    bytes_eq left.callsign right.callsign && vintage_rank left.vintage == vintage_rank right.vintage

-- `dedup`, where the last element kept is `last`.
unfoldable pub dedup_after :
    InterestSearchMatch → List InterestSearchMatch → List InterestSearchMatch
unfolding same_match
dedup_after last [] = []
dedup_after last (item ∷ items) =
    let kept = dedup_after item items in
    if same_match item last then dedup_after last items else item ∷ kept

unfoldable pub dedup_matches : List InterestSearchMatch → List InterestSearchMatch
unfolding dedup_after
dedup_matches [] = []
dedup_matches (item ∷ items) = item ∷ dedup_after item items

-- `finish`.
unfoldable pub finish_search : List InterestSearchMatch → List InterestSearchMatch
unfolding dedup_matches sort_matches
finish_search matches = dedup_matches (sort_matches matches)

abbrev pub match_of : RecordKey → InterestSearchMatch
match_of parts = record { callsign = parts.0; vintage = parts.1 }

module _ (from_utf8_lossy : Bytes → Bytes) where
  -- The match of a record with its key and the raw codes of its last interest tag.
  unfoldable pub search_match : Bytes → Bytes → Bytes → Option InterestSearchMatch
  unfolding interest_record_key interest_codes_of trim_lossy bytes_eq
  search_match target key interest_raw =
      if is_empty interest_raw
      then none
      else interest_record_key from_utf8_lossy key >>= λ parts.
          then_some
            (any (λ code. bytes_eq code target)
              (interest_codes_of (trim_lossy from_utf8_lossy interest_raw)))
            (match_of parts)

  -- `finish_record`.
  unfoldable pub finish_search_record :
      Bytes → RecordScan → List InterestSearchMatch → List InterestSearchMatch
  unfolding search_match
  finish_search_record target scan matches =
      if scan.in_record
      then matches ++ cons_some (search_match target scan.key scan.interest_raw) []
      else matches

  unfoldable pub scan_interest_code : Bytes → Bytes → List InterestSearchMatch
  unfolding finish_search scan_dat finish_search_record
  scan_interest_code encoded target =
      finish_search (scan_dat (finish_search_record target) encoded [])

  abbrev pub matches_in : Option Bytes → Bytes → List InterestSearchMatch
  matches_in none code = []
  matches_in (some dat_mmap) code = scan_interest_code dat_mmap code

  -- `search_interest`, of a database with or without a V2 shard and a catalogue.
  unfoldable pub search_interest :
      Option Bytes → Option InterestTable → Bytes → Result InterestSearch
  unfolding normalize_interest_code scan_interest_code lookup_interest
  search_interest dat_mmap catalog text = elim (normalize_interest_code text) [
    | err why ↦ err why
    | ok code ↦ ok (record {
      code = code;
      definition = catalog >>= λ table. lookup_interest table code;
      matches = matches_in dat_mmap code;
    })
  ]
