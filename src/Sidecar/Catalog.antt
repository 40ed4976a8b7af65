-- ===== src/Sidecar/Catalog.antt =====
-- `LookupCounts::lookup` against what `LookupCounts::iter` yields.
use callbook_rs.Prelude.{
  >>=-eq-some, Bool-cases, Bytes, List, Option, Option-cases, [], ap, arith, bytes_eq, bytes_eq_iff,
  false, filter_map, if◌then◌else◌, inl, inr, is_empty, leb, leb→le, ltb, ltb→le, ltb→lt,
  map_option-eq-some, none, refl, some, some-injective, subst, suc, sym, take, true, zero, ℕ, ◌+◌,
  ◌-◌, ◌<◌, ◌>>=◌, ◌∙◌, ◌∷◌, ◌≡◌, ◌≢◌, ◌≤◌,
}
use callbook_rs.Prelude.Text.{str_trim, to_uppercase}
use callbook_rs.Sidecar.Counts.{
  LookupCountRecord, LookupCountFile, decoded_key, record_at, count_of, searchable_record_range,
  lookup_count, next_count, collect_counts, iter_counts, parse_count_record,
  has_prologue_and_sentinels, decoded_slot, search_slots, count_slots, trim_ascii_lossy,
  trim_ascii_lossy,
}
use callbook_rs.Sidecar.Search.{
  KeysAscend, first_slot, has_key, has_key-eq, two_slots, search_slots-first_slot,
  search_slots-first_slot,
}

-- `count` slots from `low` on.
abbrev pub slots_from : ℕ → ℕ → List ℕ
slots_from zero low = []
slots_from (suc count) low = low ∷ slots_from count (low + 1)

-- The first record with a key.
abbrev pub first_record : Bytes → List LookupCountRecord → Option LookupCountRecord
first_record key [] = none
first_record key (found ∷ rest) =
    if bytes_eq found.key key then some found else first_record key rest

module _ (from_utf8_lossy : Bytes → Bytes) (file : LookupCountFile) where
  abbrev key_at : ℕ → Option Bytes
  key_at = decoded_key from_utf8_lossy file

  abbrev rec_at : ℕ → Option LookupCountRecord
  rec_at = record_at from_utf8_lossy file

  abbrev records_from : ℕ → ℕ → List LookupCountRecord
  records_from count low = filter_map rec_at (slots_from count low)

  -- The record of a slot has the slot's key.
  pub decoded_key-record_at :
      (index : ℕ) (found : LookupCountRecord)
      → rec_at index ≡ some found
      → key_at index ≡ some found.key
  unfolding record_at decoded_key parse_count_record count_of
  decoded_key-record_at index found h =
      let (slot, e, f) =
        >>=-eq-some (decoded_slot file index) (parse_count_record from_utf8_lossy) h in
      let key = trim_ascii_lossy from_utf8_lossy (take 15 slot) in
      elim (Bool-cases (is_empty key)) [
        | inl g ↦ let no : none ≡ some found = rw g at f in absurd (ground arith)
        | inr g ↦
            let made : count_of from_utf8_lossy key slot ≡ some found = rw g at f in
            let (count, _, made') = map_option-eq-some _ _ made in
            rw (e, g) (ap some (ap (λ r. r.key) made'))
      ]

  -- The records behind `index`, where `next` has yielded `step`.
  abbrev after_next : ℕ → Option (LookupCountRecord × ℕ) → List LookupCountRecord
  after_next end none = []
  after_next end (some (found, index')) = found ∷ records_from (end - index') index'

  abbrev MovesOn : ℕ → ℕ → Option (LookupCountRecord × ℕ) → Type 0
  MovesOn end index none = Unit
  MovesOn end index (some (found, index')) = (index < index') × (index' ≤ end)

  moves_on :
      (end index : ℕ) (step : Option (LookupCountRecord × ℕ))
      → MovesOn end (index + 1) step
      → MovesOn end index step
  moves_on end index none h = tt
  moves_on end index (some (found, index')) h = (omega (arith, h.0), h.1)

  next_count-records_from :
      (fuel index end : ℕ)
      → end - index < fuel
      → (records_from (end - index) index
          ≡ after_next end (next_count from_utf8_lossy file fuel index end))
        × MovesOn end index (next_count from_utf8_lossy file fuel index end)
  unfolding next_count
  next_count-records_from zero index end enough = absurd (omega arith)
  next_count-records_from (suc fuel) index end enough = elim (Bool-cases (ltb index end)) [
    | inr e ↦ let z : end - index ≡ 0 = omega (arith, ltb→le index end e) in rw (e, z) (refl, tt)
    | inl e ↦
        let lt : index < end = ltb→lt index end e in
        let z : end - index ≡ suc (end - (index + 1)) = omega arith in
        let ih = next_count-records_from fuel (index + 1) end (omega arith) in
        elim (Option-cases (rec_at index)) [
          | inr (found, f) ↦ rw (e, z, f) (refl, (omega arith, omega arith))
          | inl f ↦
              rw (e, z, f)
                (
                  ih.0,
                  moves_on end index (next_count from_utf8_lossy file fuel (index + 1) end) ih.1,
                )
        ]
  ]

  collect_counts-records_from :
      (fuel index end : ℕ)
      → end - index < fuel
      → collect_counts from_utf8_lossy file fuel index end ≡ records_from (end - index) index
  unfolding collect_counts
  collect_counts-records_from zero index end enough = absurd (omega arith)
  collect_counts-records_from (suc fuel) index end enough =
      let (same, on) = next_count-records_from (suc (end - index)) index end (omega arith) in
      elim (Option-cases (next_count from_utf8_lossy file (suc (end - index)) index end)) [
        | inl e ↦
            let s : records_from (end - index) index ≡ [] = rw e at same in
            rw (collect_counts, e) (sym s)
        | inr ((found, index'), e) ↦
            let lt : (index < index') × (index' ≤ end) = rw e at on in
            let s : records_from (end - index) index ≡ found ∷ records_from (end - index') index' =
              rw e at same in
            rw (collect_counts, e)
              (ap (λ r. found ∷ r)
                  (collect_counts-records_from fuel index' end (omega (arith, lt.0, lt.1)))
                ∙ sym s)
      ]

  iter_counts-records_from :
      iter_counts from_utf8_lossy file
      ≡ records_from
          (count_slots from_utf8_lossy file)
          (searchable_record_range from_utf8_lossy file).0
  unfolding iter_counts count_slots
  iter_counts-records_from =
      let range = searchable_record_range from_utf8_lossy file in
      collect_counts-records_from (suc (range.1 - range.0)) range.0 range.1 (omega arith)

  -- No record in the rest, where no slot has the key.
  first_record-none :
      (key : Bytes) (count low : ℕ)
      → ((i : ℕ) → low ≤ i → i < low + count → key_at i ≢ some key)
      → first_record key (records_from count low) ≡ none
  first_record-none key zero low h = refl
  first_record-none key (suc count) low h =
      let ih = first_record-none key count (low + 1) (λ i a b. h i (omega arith) (omega arith)) in
      elim (Option-cases (rec_at low)) [
        | inl e ↦ rw e ih
        | inr (found, e) ↦ elim (Bool-cases (bytes_eq found.key key)) [
          | inl f ↦ absurd (
              h low (omega arith) (omega arith)
                (decoded_key-record_at low found e ∙ ap some ((bytes_eq_iff found.key key).0 f)))
          | inr f ↦ rw (e, f) ih
        ]
      ]

  -- The record of the first slot with the key is the first record with the key.
  first_slot-first_record :
      (key : Bytes) (count low : ℕ)
      → KeysAscend key_at low (low + count)
      → (first_slot key_at key count low >>= rec_at) ≡ first_record key (records_from count low)
  unfolding first_slot
  first_slot-first_record key zero low asc = refl
  first_slot-first_record key (suc count) low asc =
      let ih =
        first_slot-first_record key count (low + 1)
          (λ i j a b c. asc i j (omega arith) b (omega arith)) in
      elim (Bool-cases (has_key key (key_at low))) [
        | inl e ↦
            let k = has_key-eq key (key_at low) e in
            elim (Option-cases (rec_at low)) [
              | inr (found, f) ↦
                  let same : found.key ≡ key =
                    some-injective (sym (decoded_key-record_at low found f) ∙ k) in
                  rw (e, f, (bytes_eq_iff found.key key).1 same) refl
              | inl f ↦
                  rw (e, f)
                    (sym (
                      first_record-none key count (low + 1) (λ i a b.
                        two_slots key_at key low (low + suc count) low i asc (omega arith)
                          (omega arith) (omega arith) k)))
            ]
        | inr e ↦ elim (Option-cases (rec_at low)) [
          | inl f ↦ rw (e, f) ih
          | inr (found, f) ↦ elim (Bool-cases (bytes_eq found.key key)) [
            | inr g ↦ rw (e, f, g) ih
            | inl g ↦
                let no : bytes_eq found.key key ≡ false =
                  rw (decoded_key-record_at low found f) at e in
                absurd (ground (arith, g))
          ]
        ]
      ]

  range_le :
      (searchable_record_range from_utf8_lossy file).0
      ≤ (searchable_record_range from_utf8_lossy file).1
  unfolding searchable_record_range has_prologue_and_sentinels
  range_le = elim (Bool-cases (leb 4 file.records)) [
    | inr e ↦ rw e (omega arith)
    | inl e ↦ elim (Bool-cases (has_prologue_and_sentinels from_utf8_lossy file)) [
      | inl f ↦ rw f (omega (arith, leb→le 4 file.records e))
      | inr f ↦ rw f (omega arith)
    ]
  ]

  no_empty_key : (index : ℕ) → key_at index ≢ some []
  unfolding decoded_key
  no_empty_key index h = elim (Option-cases (decoded_slot file index)) [
    | inl e ↦ let no : none ≡ some [] = rw e at h in absurd (ground arith)
    | inr (slot, e) ↦
        let key = trim_ascii_lossy from_utf8_lossy (take 15 slot) in
        elim (Bool-cases (is_empty key)) [
          | inl f ↦ let no : none ≡ some [] = rw (e, f) at h in absurd (ground arith)
          | inr f ↦
              let same : key ≡ [] = some-injective (rw (e, f) at h) in
              let no : true ≡ false = rw same at f in absurd (ground arith)
        ]
  ]

  lookup_found :
      (key : Bytes) (low high : ℕ)
      → KeysAscend key_at low high
      → low ≤ high
      → (if is_empty key
          then none
          else (search_slots key_at key (suc (high - low)) low high >>= rec_at))
        ≡ first_record key (records_from (high - low) low)
  lookup_found [] low high asc le =
      sym (first_record-none [] (high - low) low (λ i a b. no_empty_key i))
  lookup_found (k ∷ key) low high asc le =
      let e : low + (high - low) ≡ high = omega arith in
      let up : KeysAscend key_at low (low + (high - low)) =
        subst (λ h. KeysAscend key_at low h) (sym e) asc in
      ap (λ h. search_slots key_at (k ∷ key) (suc (high - low)) low h >>= rec_at) (sym e)
      ∙ ap (λ o. o >>= rec_at) (search_slots-first_slot key_at (k ∷ key) low (high - low) up)
      ∙ first_slot-first_record (k ∷ key) (high - low) low up

  -- In `counts.dat`, where the keys of the searchable slots ascend strictly and the slots without a
  -- key stand first, the binary search for a callsign returns the first of the iterated records that
  -- has the callsign, trimmed and in upper case, as its key, and nothing where no iterated record
  -- has it.
  pub lookup_count-iter_counts :
      (callsign : Bytes)
      → KeysAscend key_at
          (searchable_record_range from_utf8_lossy file).0
          (searchable_record_range from_utf8_lossy file).1
      → lookup_count from_utf8_lossy file callsign
        ≡ first_record (to_uppercase (str_trim callsign)) (iter_counts from_utf8_lossy file)
  unfolding lookup_count count_slots
  lookup_count-iter_counts callsign asc =
      lookup_found (to_uppercase (str_trim callsign)) _ _ asc range_le
      ∙ ap (first_record (to_uppercase (str_trim callsign))) (sym iter_counts-records_from)
