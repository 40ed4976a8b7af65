-- ===== src/Hci/Stats/Totals.antt =====
-- The totals of the statistics, against the postings of the single records.
use callbook_rs.Prelude.{
  All, Bool-cases, List, Option, [], ap, arith, if◌then◌else◌, inl, inr, length, ltb, map, none,
  refl, zero, ℕ, ◌+◌, ◌<◌, ◌==◌, ◌≡◌,
}
use callbook_rs.Hci.Data.{HciFile, HciPosting, len}
use callbook_rs.Hci.Stats.{
  YearAccumulator, ArchivePostingYearStatistics, PostingScan, CallsignPostings, callsign_postings,
  count_record, count_postings, count_records, sum_postings, add_to_year, add_postings, year_counts,
  ◌∷◌, some, suc, year_statistics, callsign_posting_statistics, start_counts,
}

abbrev pub undated_postings : Option CallsignPostings → ℕ
undated_postings none = 0
undated_postings (some found) = elim found.year [ none ↦ length found.postings | some y ↦ 0 ]

abbrev pub dated_postings : Option CallsignPostings → ℕ
dated_postings none = 0
dated_postings (some found) = elim found.year [
  | none ↦ 0
  | some year ↦ if year_counts year then length found.postings else 0
]

-- Sums over `count` ordinals from `index` on.
abbrev pub total_over : (Option CallsignPostings → ℕ) → HciFile → ℕ → ℕ → ℕ
total_over f hci zero index = 0
total_over f hci (suc count) index =
    f (callsign_postings hci index) + total_over f hci count (index + 1)

sum_postings-add_to_year :
    (year : ℕ) (ps : List HciPosting) (accs : List YearAccumulator)
    → sum_postings (add_to_year year ps accs) ≡ sum_postings accs + length ps
unfolding add_to_year add_postings
sum_postings-add_to_year year ps [] = omega arith
sum_postings-add_to_year year ps (acc ∷ accs) =
    ground (arith, sum_postings-add_to_year year ps accs)

count_record-totals :
    (o : Option CallsignPostings) (scan : PostingScan)
    → ((count_record o scan).current_postings ≡ scan.current_postings + undated_postings o)
      × (sum_postings (count_record o scan).archive_years
          ≡ sum_postings scan.archive_years + dated_postings o)
count_record-totals none scan = (omega arith, omega arith)
count_record-totals (some found) scan = go found.year
  where
    go :
        (y : Option ℕ)
        → ((count_postings y found.postings scan).current_postings
            ≡ scan.current_postings
              + undated_postings
                  (some (record { key = found.key; year = y; postings = found.postings })))
          × (sum_postings (count_postings y found.postings scan).archive_years
              ≡ sum_postings scan.archive_years
                + dated_postings
                    (some (record { key = found.key; year = y; postings = found.postings })))
    go none = (refl, omega arith)
    go (some year) = elim (Bool-cases (year_counts year)) [
      | inl e ↦ rw e (omega arith, sum_postings-add_to_year year found.postings scan.archive_years)
      | inr e ↦ rw e (omega arith, omega arith)
    ]

count_records-totals :
    (hci : HciFile) (count index : ℕ) (scan : PostingScan)
    → ((count_records hci count index scan).current_postings
        ≡ scan.current_postings + total_over undated_postings hci count index)
      × (sum_postings (count_records hci count index scan).archive_years
          ≡ sum_postings scan.archive_years + total_over dated_postings hci count index)
unfolding count_records
count_records-totals hci zero index scan = (omega arith, omega arith)
count_records-totals hci (suc count) index scan =
    let here = count_record-totals (callsign_postings hci index) scan in
    let rest =
      count_records-totals hci count (index + 1)
        (count_record (callsign_postings hci index) scan) in
    (omega (arith, here.0, rest.0), omega (arith, here.1, rest.1))

-- Years go up.
abbrev pub YearsAscend : List ArchivePostingYearStatistics → Type 0
YearsAscend [] = Unit
YearsAscend (s ∷ ss) = All (λ t. s.year < t.year) ss × YearsAscend ss

abbrev AccsAscend : List YearAccumulator → Type 0
AccsAscend [] = Unit
AccsAscend (a ∷ accs) = All (λ b. a.year < b.year) accs × AccsAscend accs

above-add_to_year :
    (n year : ℕ) (ps : List HciPosting) (accs : List YearAccumulator)
    → n < year
    → All (λ b. n < b.year) accs
    → All (λ b. n < b.year) (add_to_year year ps accs)
unfolding add_to_year add_postings
above-add_to_year n year ps [] h a = (h, tt)
above-add_to_year n year ps (acc ∷ accs) h a =
    ground (arith, above-add_to_year n year ps accs h a.1)

above_trans :
    (n m : ℕ) (accs : List YearAccumulator)
    → n < m
    → All (λ b. m < b.year) accs
    → All (λ b. n < b.year) accs
above_trans n m [] h a = tt
above_trans n m (acc ∷ accs) h a = (omega (arith, a.0), above_trans n m accs h a.1)

add_to_year-AccsAscend :
    (year : ℕ) (ps : List HciPosting) (accs : List YearAccumulator)
    → AccsAscend accs
    → AccsAscend (add_to_year year ps accs)
unfolding add_to_year add_postings
add_to_year-AccsAscend year ps [] s = (tt, tt)
add_to_year-AccsAscend year ps (acc ∷ accs) s = elim (Bool-cases (ltb year acc.year)) [
  | inl lt ↦
      let h : year < acc.year = ground arith in rw lt ((h, above_trans year acc.year accs h s.0), s)
  | inr ge ↦ elim (Bool-cases (year == acc.year)) [
    | inl e ↦ rw (ge, e) s
    | inr ne ↦
        let h : acc.year < year = ground arith in
        rw (ge, ne)
          (above-add_to_year acc.year year ps accs h s.0, add_to_year-AccsAscend year ps accs s.1)
  ]
]

count_record-AccsAscend :
    (o : Option CallsignPostings) (scan : PostingScan)
    → AccsAscend scan.archive_years
    → AccsAscend (count_record o scan).archive_years
count_record-AccsAscend none scan s = s
count_record-AccsAscend (some found) scan s = go found.year
  where
    go : (y : Option ℕ) → AccsAscend (count_postings y found.postings scan).archive_years
    go none = s
    go (some year) = elim (Bool-cases (year_counts year)) [
      | inl e ↦ rw e (add_to_year-AccsAscend year found.postings scan.archive_years s)
      | inr e ↦ rw e s
    ]

count_records-AccsAscend :
    (hci : HciFile) (count index : ℕ) (scan : PostingScan)
    → AccsAscend scan.archive_years
    → AccsAscend (count_records hci count index scan).archive_years
unfolding count_records
count_records-AccsAscend hci zero index scan s = s
count_records-AccsAscend hci (suc count) index scan s =
    count_records-AccsAscend hci count (index + 1) (count_record (callsign_postings hci index) scan)
      (count_record-AccsAscend (callsign_postings hci index) scan s)

statistics-YearsAscend :
    (accs : List YearAccumulator) → AccsAscend accs → YearsAscend (map year_statistics accs)
statistics-YearsAscend [] s = tt
statistics-YearsAscend (acc ∷ accs) s = (each acc.year accs s.0, statistics-YearsAscend accs s.1)
  where
    each :
        (n : ℕ) (accs : List YearAccumulator)
        → All (λ b. n < b.year) accs
        → All (λ t. n < t.year) (map year_statistics accs)
    each n [] a = tt
    each n (b ∷ accs) a = (a.0, each n accs a.1)

abbrev pub sum_year_postings : List ArchivePostingYearStatistics → ℕ
sum_year_postings [] = 0
sum_year_postings (s ∷ ss) = s.postings + sum_year_postings ss

sum_year_statistics :
    (accs : List YearAccumulator) → sum_year_postings (map year_statistics accs) ≡ sum_postings accs
sum_year_statistics [] = refl
sum_year_statistics (acc ∷ accs) = ap (λ n. acc.postings + n) (sum_year_statistics accs)

-- The current total counts the postings of the callsign-looking records without a year, the archive
-- total those with a year from 1900 to 2099; the years of the breakdown go up, and their counts add
-- up to the archive total.
pub callsign_posting_statistics_totals :
    (hci : HciFile)
    → ((callsign_posting_statistics hci).current_postings
        ≡ total_over undated_postings hci (len hci) 0)
      × ((callsign_posting_statistics hci).archive_postings
          ≡ total_over dated_postings hci (len hci) 0)
      × (sum_year_postings (callsign_posting_statistics hci).archive_years
          ≡ (callsign_posting_statistics hci).archive_postings)
      × YearsAscend (callsign_posting_statistics hci).archive_years
unfolding callsign_posting_statistics
callsign_posting_statistics_totals hci =
    let scan = count_records hci (len hci) 0 start_counts in
    let totals = count_records-totals hci (len hci) 0 start_counts in
    (
      omega (arith, totals.0),
      omega (arith, totals.1),
      sum_year_statistics scan.archive_years,
      statistics-YearsAscend scan.archive_years
          (count_records-AccsAscend hci (len hci) 0 start_counts tt),
    )
