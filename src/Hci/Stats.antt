-- ===== src/Hci/Stats.antt =====
-- The counts of postings under callsign-looking keys.
pub mod Totals
use callbook_rs.Prelude.{
  Bool, Bytes, List, Option, [], drop, if◌then◌else◌, leb, length, ltb, map, none, some, suc,
  then_some, zero, ℕ, ◌&&◌, ◌++◌, ◌+◌, ◌==◌, ◌>>=◌, ◌∷◌,
}
use callbook_rs.Hci.Data.{HciFile, RawHciRecord, HciPosting, raw_record, len}
use callbook_rs.Hci.Header.{HciHeaderKey, decode_header_key, looks_like_callsign_header}
use callbook_rs.Hci.Posting.{visit_postings}

pub record ArchivePostingYearStatistics : Type 0 where
  pub year : ℕ
  pub postings : ℕ
  pub unique_dat_offsets : ℕ

pub record CallsignPostingStatistics : Type 0 where
  pub current_postings : ℕ
  pub current_unique_dat_offsets : ℕ
  pub archive_postings : ℕ
  pub archive_unique_dat_offsets : ℕ
  pub archive_years : List ArchivePostingYearStatistics

-- `BTreeSet::insert` on the ascending list of the elements.
unfoldable pub insert_offset : ℕ → List ℕ → List ℕ
insert_offset n [] = n ∷ []
insert_offset n (m ∷ ms) =
    let rest = insert_offset n ms in
    if ltb n m then n ∷ m ∷ ms else if n == m then m ∷ ms else m ∷ rest

-- `extend` of a set.
unfoldable pub insert_offsets : List ℕ → List ℕ → List ℕ
unfolding insert_offset
insert_offsets [] set = set
insert_offsets (n ∷ ns) set = insert_offsets ns (insert_offset n set)

-- `YearAccumulator` with its key in the map of years.
pub record YearAccumulator : Type 0 where
  pub year : ℕ
  pub postings : ℕ
  pub offsets : List ℕ

abbrev pub default_year : ℕ → YearAccumulator
default_year year = record { year = year; postings = 0; offsets = [] }

-- The visitor's two lines, for the postings of a record.
abbrev pub dat_offsets : List HciPosting → List ℕ
dat_offsets ps = map (λ p. p.dat_offset) ps

unfoldable pub add_postings : List HciPosting → YearAccumulator → YearAccumulator
unfolding insert_offsets
add_postings ps acc = record acc {
  postings = acc.postings + length ps;
  offsets = insert_offsets (dat_offsets ps) acc.offsets;
}

-- `entry(year).or_default()` with the visitor, in the list of accumulators by year.
unfoldable pub add_to_year : ℕ → List HciPosting → List YearAccumulator → List YearAccumulator
unfolding add_postings
add_to_year year ps [] = add_postings ps (default_year year) ∷ []
add_to_year year ps (acc ∷ accs) =
    let rest = add_to_year year ps accs in
    if ltb year acc.year
    then add_postings ps (default_year year) ∷ acc ∷ accs
    else if year == acc.year
    then add_postings ps acc ∷ accs
    else acc ∷ rest

-- The variables of the loop.
pub record PostingScan : Type 0 where
  pub current_postings : ℕ
  pub current_offsets : List ℕ
  pub archive_years : List YearAccumulator

abbrev pub year_counts : ℕ → Bool
year_counts year = leb 1900 year && leb year 2099

abbrev pub count_postings : Option ℕ → List HciPosting → PostingScan → PostingScan
count_postings none ps scan = record scan {
  current_postings = scan.current_postings + length ps;
  current_offsets = insert_offsets (dat_offsets ps) scan.current_offsets;
}
count_postings (some year) ps scan =
    if year_counts year
    then record scan { archive_years = add_to_year year ps scan.archive_years }
    else scan

-- A record with a callsign-looking header: its key, its year and its postings.
pub record CallsignPostings : Type 0 where
  pub key : Bytes
  pub year : Option ℕ
  pub postings : List HciPosting

abbrev pub callsign_header : RawHciRecord → HciHeaderKey → Option CallsignPostings
callsign_header raw header = then_some (looks_like_callsign_header header.key) (record {
  key = header.key;
  year = header.year;
  postings = visit_postings (drop header.header_len raw.raw_bytes);
})

-- The guards in front of both loops.
unfoldable pub callsign_postings : HciFile → ℕ → Option CallsignPostings
callsign_postings hci index = do
  raw ← raw_record hci index
  header ← decode_header_key raw.dat_offset raw.raw_bytes
  callsign_header raw header

abbrev pub count_record : Option CallsignPostings → PostingScan → PostingScan
count_record none scan = scan
count_record (some found) scan = count_postings found.year found.postings scan

-- The loop over `count` ordinals from `index` on.
unfoldable pub count_records : HciFile → ℕ → ℕ → PostingScan → PostingScan
unfolding callsign_postings insert_offsets add_to_year
count_records hci zero index scan = scan
count_records hci (suc count) index scan =
    count_records hci count (index + 1) (count_record (callsign_postings hci index) scan)

abbrev pub start_counts : PostingScan
start_counts = record { current_postings = 0; current_offsets = []; archive_years = [] }

abbrev pub year_statistics : YearAccumulator → ArchivePostingYearStatistics
year_statistics acc = record {
  year = acc.year;
  postings = acc.postings;
  unique_dat_offsets = length acc.offsets;
}

-- The sums that the closure of the last `map` keeps.
abbrev pub sum_postings : List YearAccumulator → ℕ
sum_postings [] = 0
sum_postings (acc ∷ accs) = acc.postings + sum_postings accs

abbrev pub all_offsets : List YearAccumulator → List ℕ → List ℕ
all_offsets [] set = set
all_offsets (acc ∷ accs) set = all_offsets accs (insert_offsets acc.offsets set)

unfoldable pub callsign_posting_statistics : HciFile → CallsignPostingStatistics
unfolding count_records insert_offsets
callsign_posting_statistics hci =
    let scan = count_records hci (len hci) 0 start_counts in
    record {
      current_postings = scan.current_postings;
      current_unique_dat_offsets = length scan.current_offsets;
      archive_postings = sum_postings scan.archive_years;
      archive_unique_dat_offsets = length (all_offsets scan.archive_years []);
      archive_years = map year_statistics scan.archive_years;
    }

abbrev pub visited : Option CallsignPostings → List (Bytes × HciPosting)
visited none = []
visited (some found) = map (λ p. (found.key, p)) found.postings

unfoldable pub visit_from : HciFile → ℕ → ℕ → List (Bytes × HciPosting)
unfolding callsign_postings
visit_from hci zero index = []
visit_from hci (suc count) index =
    visited (callsign_postings hci index) ++ visit_from hci count (index + 1)

-- The calls of the visitor.
unfoldable pub visit_callsign_postings : HciFile → List (Bytes × HciPosting)
unfolding visit_from
visit_callsign_postings hci = visit_from hci (len hci) 0
