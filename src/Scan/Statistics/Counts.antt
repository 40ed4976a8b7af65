-- ===== src/Scan/Statistics/Counts.antt =====
-- The counts of the interest statistics agree with each other.
use callbook_rs.Prelude.{
  All, Bool, Bool-cases, Bytes, List, Option, [], any, arith, false, if◌then◌else◌, inl, inr,
  is_empty, length, length-append, ltb, ltb→le, ltb→lt, none, some, suc, true, ℕ, ◌+◌, ◌||◌, ◌∷◌,
  ◌≡◌, ◌≤◌,
}
use callbook_rs.Prelude.Order.{lt_bytes}
use callbook_rs.Prelude.TextSet.{insert_text}
use callbook_rs.Modern.Snapshot.{ResolvedInterest}
use callbook_rs.Interest.{interest_codes_of, InterestTable}
use callbook_rs.Scan.{
  RecordScan, RecordKey, scan_bytes, scan_byte, start_record, scan_dat, new_scan,
  interest_record_key, trim_lossy,
}
use callbook_rs.V2Record.Segment.{is_mark}
use callbook_rs.Cipher.{decode_from}
use callbook_rs.Scan.Statistics.{
  InterestCodeExample, UnknownInterestCode, InterestTotals, new_totals, one_current, one_archive,
  is_example, add_example, add_occurrence, default_unknown, count_unknown, resolve_by, is_resolved,
  count_codes, count_snapshot, count_interest_record, count_keyed, count_interests,
  finish_interest_record, interest_statistics,
}

length-insert_text :
    (text : Bytes) (items : List Bytes) → length (insert_text text items) ≤ suc (length items)
unfolding insert_text
length-insert_text text [] = omega arith
length-insert_text text (item ∷ items) = ground (arith, length-insert_text text items)

-- The occurrences of a code are those in current and in archive records; there is one, and with it
-- one to three examples.
abbrev pub IsCounted : UnknownInterestCode → Type 0
IsCounted acc =
    (acc.occurrences ≡ acc.current_occurrences + acc.archive_occurrences)
    × (1 ≤ acc.occurrences)
    × (1 ≤ length acc.examples)
    × (length acc.examples ≤ 3)

-- Before the first occurrence, or behind one.
abbrev MayCount : UnknownInterestCode → Type 0
MayCount acc =
    (acc.occurrences ≡ acc.current_occurrences + acc.archive_occurrences)
    × (length acc.examples ≤ 3)

length-add_example :
    (parts : RecordKey) (examples : List InterestCodeExample)
    → length examples ≤ 3
    → (1 ≤ length (add_example parts examples)) × (length (add_example parts examples) ≤ 3)
unfolding add_example
length-add_example parts examples h = elim (Bool-cases (ltb (length examples) 3)) [
  | inr e ↦ rw e (omega (arith, ltb→le (length examples) 3 e), h)
  | inl e ↦ elim (Bool-cases (any (is_example parts) examples)) [
    | inl f ↦ rw (e, f) (not_empty_of examples f, h)
    | inr f ↦
        let added =
          length-append examples (record { callsign = parts.0; vintage = parts.1 } ∷ []) in
        rw (e, f) (omega (arith, added), omega (arith, added, ltb→lt (length examples) 3 e))
  ]
]
  where
    not_empty_of :
        (xs : List InterestCodeExample) → any (is_example parts) xs ≡ true → 1 ≤ length xs
    not_empty_of [] f = ground arith
    not_empty_of (x ∷ xs) f = omega arith

one_of_each : (vintage : Option ℕ) → one_current vintage + one_archive vintage ≡ 1
one_of_each none = omega arith
one_of_each (some year) = omega arith

add_occurrence-IsCounted :
    (parts : RecordKey) (acc : UnknownInterestCode)
    → MayCount acc
    → IsCounted (add_occurrence parts acc)
unfolding add_occurrence
add_occurrence-IsCounted parts acc (sum, few) =
    let (one, three) = length-add_example parts acc.examples few in
    (omega (arith, sum, one_of_each parts.1), omega arith, one, three)

default_unknown-MayCount : (code : Bytes) → MayCount (default_unknown code)
default_unknown-MayCount code = (omega arith, omega arith)

count_unknown-IsCounted :
    (parts : RecordKey) (code : Bytes) (accs : List UnknownInterestCode)
    → All IsCounted accs
    → All IsCounted (count_unknown parts code accs)
unfolding count_unknown
count_unknown-IsCounted parts code [] h =
    (add_occurrence-IsCounted parts (default_unknown code) (default_unknown-MayCount code), tt)
count_unknown-IsCounted parts code (acc ∷ accs) (h, hs) =
    elim (Bool-cases (lt_bytes code acc.code)) [
      | inl e ↦ rw e (
        add_occurrence-IsCounted parts (default_unknown code) (default_unknown-MayCount code),
        (h, hs),
      )
      | inr e ↦ elim (Bool-cases (lt_bytes acc.code code)) [
        | inl f ↦ rw (e, f) (h, count_unknown-IsCounted parts code accs hs)
        | inr f ↦ rw (e, f) (add_occurrence-IsCounted parts acc (h.0, h.3), hs)
      ]
    ]

count_codes-IsCounted :
    (parts : RecordKey) (resolved : List ResolvedInterest) (codes : List Bytes)
    (accs : List UnknownInterestCode)
    → All IsCounted accs
    → All IsCounted (count_codes parts resolved codes accs)
unfolding count_codes
count_codes-IsCounted parts resolved [] accs h = h
count_codes-IsCounted parts resolved (code ∷ codes) accs h =
    elim (Bool-cases (is_resolved resolved code)) [
      | inl e ↦ rw e (count_codes-IsCounted parts resolved codes accs h)
      | inr e ↦ rw e (
          count_codes-IsCounted parts resolved codes (count_unknown parts code accs)
            (count_unknown-IsCounted parts code accs h))
    ]

-- The invariant of the scan.
abbrev pub IsTallied : InterestTotals → Type 0
IsTallied totals =
    (length totals.current_calls ≤ totals.current_snapshots)
    × (length totals.current_calls_resolved ≤ totals.current_snapshots)
    × All IsCounted totals.unknown_codes

count_interest_record-IsTallied :
    (parts : RecordKey) (resolved : List ResolvedInterest) (codes : List Bytes)
    (totals : InterestTotals)
    → IsTallied totals
    → IsTallied (count_interest_record parts resolved codes totals)
unfolding count_interest_record count_snapshot
count_interest_record-IsTallied (callsign, none) resolved codes totals (calls, known, counted) = (
  omega (arith, length-insert_text callsign totals.current_calls),
  either_le (is_empty resolved),
  count_codes-IsCounted (callsign, none) resolved codes totals.unknown_codes counted,
)
  where
    either_le :
        (b : Bool)
        → length (
            if b
            then totals.current_calls_resolved
            else insert_text callsign totals.current_calls_resolved)
          ≤ totals.current_snapshots + 1
    either_le true = omega (arith, known)
    either_le false =
        omega (arith, known, length-insert_text callsign totals.current_calls_resolved)
count_interest_record-IsTallied (callsign, some year) resolved codes totals
      (calls, known, counted) =
    (
      calls,
      known,
      count_codes-IsCounted (callsign, some year) resolved codes totals.unknown_codes counted,
    )

-- What each end of a record preserves, a scan preserves.
scan_bytes-preserves {ℓ κ} :
    {M : Type ℓ} (P : M → Type κ) (finish_record : RecordScan → M → M)
    → ((scan : RecordScan) (m : M) → P m → P (finish_record scan m))
    → (bytes : Bytes) (scan : RecordScan) (m : M) → P m
    → P (scan_bytes finish_record bytes scan m)
unfolding scan_bytes
scan_bytes-preserves P finish_record keeps [] scan m h = keeps scan m h
scan_bytes-preserves P finish_record keeps (b ∷ bytes) scan m h = elim (Bool-cases (is_mark b)) [
  | inl e ↦ rw e (
      scan_bytes-preserves P finish_record keeps bytes (start_record scan) (finish_record scan m)
        (keeps scan m h))
  | inr e ↦ rw e (scan_bytes-preserves P finish_record keeps bytes (scan_byte b scan) m h)
]

either_IsTallied :
    (b : Bool) (x y : InterestTotals) → IsTallied x → IsTallied y → IsTallied (if b then x else y)
either_IsTallied true x y h k = h
either_IsTallied false x y h k = k

module _ (from_utf8_lossy : Bytes → Bytes) (table : Option InterestTable) where
  count_keyed-IsTallied :
      (o : Option RecordKey) (text : Bytes) (totals : InterestTotals)
      → IsTallied totals
      → IsTallied (count_keyed from_utf8_lossy table o text totals)
  count_keyed-IsTallied none text totals h = h
  count_keyed-IsTallied (some parts) text totals h =
      either_IsTallied (is_empty text || is_empty (interest_codes_of text)) totals
        (count_interest_record parts (resolve_by table text) (interest_codes_of text) totals) h
        (count_interest_record-IsTallied parts (resolve_by table text) (interest_codes_of text)
          totals h)

  count_interests-IsTallied :
      (key interest_raw : Bytes) (totals : InterestTotals)
      → IsTallied totals
      → IsTallied (count_interests from_utf8_lossy table key interest_raw totals)
  unfolding count_interests
  count_interests-IsTallied key interest_raw totals h =
      either_IsTallied (is_empty interest_raw) totals
        (count_keyed from_utf8_lossy table (interest_record_key from_utf8_lossy key)
          (trim_lossy from_utf8_lossy interest_raw) totals)
        h
        (count_keyed-IsTallied (interest_record_key from_utf8_lossy key)
          (trim_lossy from_utf8_lossy interest_raw) totals h)

  finish_interest_record-IsTallied :
      (scan : RecordScan) (totals : InterestTotals)
      → IsTallied totals
      → IsTallied (finish_interest_record from_utf8_lossy table scan totals)
  unfolding finish_interest_record
  finish_interest_record-IsTallied scan totals h = elim (Bool-cases scan.in_record) [
    | inl e ↦ rw e (count_interests-IsTallied scan.key scan.interest_raw totals h)
    | inr e ↦ rw e h
  ]

  -- The interest statistics count no more current callsigns, and no more of them with a resolved
  -- code, than current records with codes; and each unknown code has at least one occurrence, as
  -- many as those in current and in archive records together, and from one to three examples.
  pub interest_statistics-IsCounted :
      (catalog_entries : ℕ) (dat_mmap : Bytes)
      → (let statistics = interest_statistics from_utf8_lossy table catalog_entries dat_mmap in
          (statistics.current_callsigns_with_interests
            ≤ statistics.current_snapshots_with_interests)
          × (statistics.current_callsigns_with_resolved_interests
              ≤ statistics.current_snapshots_with_interests)
          × All IsCounted statistics.unknown_codes)
  unfolding interest_statistics scan_dat
  interest_statistics-IsCounted catalog_entries dat_mmap =
      scan_bytes-preserves IsTallied (finish_interest_record from_utf8_lossy table)
        finish_interest_record-IsTallied (decode_from 0 dat_mmap) new_scan new_totals
        (omega arith, omega arith, tt)
