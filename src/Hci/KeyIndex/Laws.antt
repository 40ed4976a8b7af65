-- ===== src/Hci/KeyIndex/Laws.antt =====
-- The searches by hash find what a scan of all records finds.
use callbook_rs.Prelude.{
  ==_iff, All, Bool, Bool-cases, Bytes, Holds, List, Option, Option-cases, [], ap, append_assoc,
  ap₂, arith, cons_some, drop, filter, get_elem?, inl, inr, length, length-append, ltb, lt→ltb,
  none, refl, slice, subst, suc, sym, true, zero, ℕ, ◌++◌, ◌+◌, ◌<◌, ◌==◌, ◌>>=◌, ◌^◌, ◌∙◌, ◌≡◌,
  ◌≢◌,
}
use callbook_rs.Hci.Data.{
  HciFile, HciKeyRef, HciPosting, RawHciRecord, offset, raw_record, raw_between, outside, raw_at,
  len,
}
use callbook_rs.Hci.Header.{
  HciHeaderKey, decode_header_key, decoded_header_matches, hash_key, is_key_byte,
}
use callbook_rs.Hci.Header.Match.{decoded_header_matches-decode_header_key}
use callbook_rs.Hci.Posting.{visit_postings}
use callbook_rs.Hci.KeyIndex.{
  chunk_offsets, push_all, build_key_index, opened, refs_for_key, record_for_key, visit_refs,
  visit_ref_postings, visit_records_for_key, postings_for_key, ◌∷◌, some, matching_record,
}
use callbook_rs.Hci.KeyIndex.Slice.{has_hash, slice-sort_refs, Ascending}
use callbook_rs.Hci.KeyIndex.Refs.{
  offset-chunk_offsets, length-chunk_offsets, ref_of, header_ref, refs_from, entries-push_from,
  refs_from-Ascending,
}

-- The matching records of `count` ordinals from `index` on, in order.
abbrev pub scan_records : HciFile → Bytes → ℕ → ℕ → List (RawHciRecord × ℕ)
scan_records hci key zero index = []
scan_records hci key (suc count) index =
    cons_some (record_for_key hci key index) (scan_records hci key count (index + 1))

abbrev pub all_postings : List (RawHciRecord × ℕ) → List HciPosting
all_postings [] = []
all_postings ((raw, header_len) ∷ records) =
    visit_postings (drop header_len raw.raw_bytes) ++ all_postings records

visit_refs-append :
    (hci : HciFile) (key : Bytes) (xs ys : List HciKeyRef)
    → visit_refs hci key (xs ++ ys) ≡ visit_refs hci key xs ++ visit_refs hci key ys
unfolding visit_refs
visit_refs-append hci key [] ys = refl
visit_refs-append hci key (x ∷ xs) ys =
    ap (cons_some (record_for_key hci key x.index)) (visit_refs-append hci key xs ys)
    ∙ cons_append (record_for_key hci key x.index) (visit_refs hci key xs) (visit_refs hci key ys)
  where
    cons_append :
        {A : Type 0} (o : Option A) (us vs : List A) → cons_some o (us ++ vs) ≡ cons_some o us ++ vs
    cons_append none us vs = refl
    cons_append (some a) us vs = refl

visit_ref_postings-visit_refs :
    (hci : HciFile) (key : Bytes) (refs : List HciKeyRef)
    → visit_ref_postings hci key refs ≡ all_postings (visit_refs hci key refs)
unfolding visit_refs visit_ref_postings
visit_ref_postings-visit_refs hci key [] = refl
visit_ref_postings-visit_refs hci key (r ∷ refs) =
    elim (Option-cases (record_for_key hci key r.index)) [
      | inl e ↦ rw e (visit_ref_postings-visit_refs hci key refs)
      | inr ((raw, n), e) ↦ rw e (
          ap (λ ps. visit_postings (drop n raw.raw_bytes) ++ ps)
            (visit_ref_postings-visit_refs hci key refs))
    ]

filter-append {ℓ} :
    {A : Type ℓ} (p : A → Bool) (xs ys : List A) → filter p (xs ++ ys) ≡ filter p xs ++ filter p ys
filter-append p [] ys = refl
filter-append p (x ∷ xs) ys = elim (Bool-cases (p x)) [
  | inl e ↦ rw e (ap (λ r. x ∷ r) (filter-append p xs ys))
  | inr e ↦ rw e (filter-append p xs ys)
]

get_elem?-middle :
    (pre : List ℕ) (x : ℕ) (xs : List ℕ) → get_elem? (pre ++ (x ∷ xs)) (length pre) ≡ some x
get_elem?-middle [] x xs = refl
get_elem?-middle (p ∷ pre) x xs = get_elem?-middle pre x xs

get_elem?-behind :
    (pre : List ℕ) (x : ℕ) (xs : List ℕ)
    → get_elem? (pre ++ (x ∷ xs)) (suc (length pre)) ≡ get_elem? xs 0
get_elem?-behind [] x xs = refl
get_elem?-behind (p ∷ pre) x xs = get_elem?-behind pre x xs

cons_alone {ℓ} : {A : Type ℓ} (o : Option A) (xs : List A) → cons_some o [] ++ xs ≡ cons_some o xs
cons_alone none xs = refl
cons_alone (some a) xs = refl

offset_at :
    (hci : HciFile) (pre : List ℕ) (x : ℕ) (xs : List ℕ)
    → chunk_offsets hci.index_mmap ≡ pre ++ (x ∷ xs)
    → length pre < 2 ^ 62
    → offset hci (length pre) ≡ some x
offset_at hci pre x xs e small =
    offset-chunk_offsets hci (length pre) small
    ∙ ap (λ os. get_elem? os (length pre)) e
    ∙ get_elem?-middle pre x xs

offset_next :
    (hci : HciFile) (pre : List ℕ) (x : ℕ) (xs : List ℕ)
    → chunk_offsets hci.index_mmap ≡ pre ++ (x ∷ xs)
    → length pre + 1 < 2 ^ 62
    → offset hci (length pre + 1) ≡ get_elem? xs 0
offset_next hci pre x xs e small =
    let next : length pre + 1 ≡ suc (length pre) = omega arith in
    offset-chunk_offsets hci (length pre + 1) small
    ∙ ap₂ get_elem? e next
    ∙ get_elem?-behind pre x xs

module _ (hci : HciFile) (key : Bytes) (good : All (Holds is_key_byte) key) (ne : key ≢ []) where
  abbrev hit : HciKeyRef → Bool
  hit = has_hash (hash_key key)

  -- A record without a matching header adds nothing, whether it is in the table or not.
  no_record :
      (index : ℕ) (refs : List HciKeyRef)
      → record_for_key hci key index ≡ none
      → All (λ r. r.index ≡ index) refs
      → visit_refs hci key (filter hit refs) ≡ []
  unfolding visit_refs
  no_record index [] e a = refl
  no_record index (r ∷ refs) e a = elim (Bool-cases (hit r)) [
    | inl h ↦ rw h (rw (ap (record_for_key hci key) a.0 ∙ e) (no_record index refs e a.1))
    | inr h ↦ rw h (no_record index refs e a.1)
  ]

  index-header_ref :
      (index : ℕ) (o : Option HciHeaderKey) → All (λ r. r.index ≡ index) (header_ref index o)
  index-header_ref index none = tt
  index-header_ref index (some h) = elim (Bool-cases (ltb index (2 ^ 32))) [
    | inl e ↦ rw e (refl, tt)
    | inr e ↦ rw e tt
  ]

  one_record :
      (index start end : ℕ)
      → index < 2 ^ 32
      → raw_record hci index ≡ raw_between hci.dat_mmap index start end
      → visit_refs hci key (filter hit (ref_of hci.dat_mmap index start end))
        ≡ cons_some (record_for_key hci key index) []
  unfolding record_for_key visit_refs
  one_record index start end small same =
      let dat = hci.dat_mmap in
      let bytes = slice dat start end in
      let record_is = ap (λ o. o >>= matching_record key) same in
      elim (Bool-cases (outside (length dat) start end)) [
        | inl out ↦
            let gone : record_for_key hci key index ≡ none = record_is ∙ rw out refl in
            rw (out, gone) refl
        | inr fits ↦
            let here : record_for_key hci key index
                ≡ matching_record key (raw_at index start bytes) =
              record_is ∙ rw fits refl in
            elim (Option-cases (decoded_header_matches start bytes key)) [
              | inl miss ↦
                  let gone : record_for_key hci key index ≡ none = here ∙ rw miss refl in
                  rw (fits, gone)
                    (no_record index (header_ref index (decode_header_key start bytes)) gone
                      (index-header_ref index (decode_header_key start bytes)))
              | inr (n, m) ↦
                  let (h, e, hash, text, size) =
                    (decoded_header_matches-decode_header_key start bytes key n good ne).0 m in
                  let fine : (h.hash == hash_key key) ≡ true =
                    (==_iff h.hash (hash_key key)).1 hash in
                  rw (fits, e, lt→ltb index (2 ^ 32) small, fine) refl
            ]
      ]

  a_record :
      (pre : List ℕ) (previous current : ℕ) (offsets : List ℕ)
      → chunk_offsets hci.index_mmap ≡ pre ++ (previous ∷ current ∷ offsets)
      → length pre < 2 ^ 32
      → raw_record hci (length pre) ≡ raw_between hci.dat_mmap (length pre) previous current
  unfolding raw_record
  a_record pre previous current offsets e small =
      let here = offset_at hci pre previous (current ∷ offsets) e (omega arith) in
      let next = offset_next hci pre previous (current ∷ offsets) e (omega arith) in
      rw (here, next) refl

  last_record :
      (pre : List ℕ) (previous : ℕ)
      → chunk_offsets hci.index_mmap ≡ pre ++ (previous ∷ [])
      → length pre < 2 ^ 32
      → raw_record hci (length pre)
        ≡ raw_between hci.dat_mmap (length pre) previous (length hci.dat_mmap)
  unfolding raw_record
  last_record pre previous e small =
      let here = offset_at hci pre previous [] e (omega arith) in
      let next = offset_next hci pre previous [] e (omega arith) in rw (here, next) refl

  -- `refs_from` over the offsets, against the scan of their records.
  all_records :
      (pre : List ℕ) (previous : ℕ) (offsets : List ℕ)
      → chunk_offsets hci.index_mmap ≡ pre ++ (previous ∷ offsets)
      → length pre + suc (length offsets) < 2 ^ 32
      → visit_refs hci key (filter hit (refs_from hci.dat_mmap (length pre) previous offsets))
        ≡ scan_records hci key (suc (length offsets)) (length pre)
  all_records pre previous [] e small =
      one_record (length pre) previous (length hci.dat_mmap) (omega arith)
        (last_record pre previous e (omega arith))
  all_records pre previous (current ∷ offsets) e small =
      let dat = hci.dat_mmap in
      let i = length pre in
      let one = ref_of dat i previous current in
      let rest = refs_from dat (i + 1) current offsets in
      let here =
        one_record i previous current (omega arith)
          (a_record pre previous current offsets e (omega arith)) in
      let next : length (pre ++ (previous ∷ [])) ≡ i + 1 =
        omega (arith, length-append {0} pre (previous ∷ [])) in
      let later =
        subst
          (λ j.
            visit_refs hci key (filter hit (refs_from dat j current offsets))
            ≡ scan_records hci key (suc (length offsets)) j)
          next
          (all_records (pre ++ (previous ∷ [])) current offsets
            (e ∙ sym (append_assoc pre (previous ∷ []) (current ∷ offsets)))
            (omega (arith, next))) in
      ap (visit_refs hci key) (filter-append hit one rest)
      ∙ visit_refs-append hci key (filter hit one) (filter hit rest)
      ∙ ap₂ ◌++◌ here later
      ∙ cons_alone (record_for_key hci key i) (scan_records hci key (suc (length offsets)) (i + 1))

-- `HciFile::open` in front.
module _ (index_mmap dat_mmap key : Bytes) (small : length index_mmap < 2 ^ 32)
    (good : All (Holds is_key_byte) key) (ne : key ≢ []) where
  visit_opened :
      (offsets : List ℕ)
      → chunk_offsets index_mmap ≡ offsets
      → visit_refs
          (opened index_mmap dat_mmap)
          key
          (filter (has_hash (hash_key key)) (push_all dat_mmap offsets).entries)
        ≡ scan_records (opened index_mmap dat_mmap) key (length offsets) 0
  unfolding visit_refs
  visit_opened [] e = refl
  visit_opened (first ∷ offsets) e =
      let hci = opened index_mmap dat_mmap in
      let bound = length-chunk_offsets index_mmap in
      let size = ap length e in
      ap (λ es. visit_refs hci key (filter (has_hash (hash_key key)) es))
        (entries-push_from dat_mmap 0 first offsets (record { entries = []; years = [] }))
      ∙ all_records hci key good ne [] first offsets e (omega (arith, bound, size))

  Ascending-push_all : (offsets : List ℕ) → Ascending (push_all dat_mmap offsets).entries
  Ascending-push_all [] = tt
  Ascending-push_all (first ∷ offsets) =
      subst Ascending
        (sym (entries-push_from dat_mmap 0 first offsets (record { entries = []; years = [] })))
        (refs_from-Ascending dat_mmap 0 first offsets)

  -- For an index below 4 GiB and a non-empty key of printable bytes, `visit_records_for_key` on the
  -- opened pair visits exactly the records whose header matches the key, each once and in the order
  -- of the file, as a scan of all records would.
  pub visit_records_for_key-scan_records :
      visit_records_for_key (opened index_mmap dat_mmap) key
      ≡ scan_records (opened index_mmap dat_mmap) key (len (opened index_mmap dat_mmap)) 0
  unfolding visit_records_for_key refs_for_key build_key_index
  visit_records_for_key-scan_records =
      let hci = opened index_mmap dat_mmap in
      let refs = (push_all dat_mmap (chunk_offsets index_mmap)).entries in
      ap (visit_refs hci key)
        (slice-sort_refs (hash_key key) refs (Ascending-push_all (chunk_offsets index_mmap)))
      ∙ visit_opened (chunk_offsets index_mmap) refl
      ∙ ap (λ n. scan_records hci key n 0) (length-chunk_offsets index_mmap)

  -- For an index below 4 GiB and a non-empty key of printable bytes, `postings_for_key` on the opened
  -- pair returns the postings of every record whose header matches the key, in the order of the
  -- file.
  pub postings_for_key-scan_records :
      postings_for_key (opened index_mmap dat_mmap) key
      ≡ all_postings
          (scan_records (opened index_mmap dat_mmap) key (len (opened index_mmap dat_mmap)) 0)
  unfolding postings_for_key visit_records_for_key
  postings_for_key-scan_records =
      let hci = opened index_mmap dat_mmap in
      visit_ref_postings-visit_refs hci key (refs_for_key hci key)
      ∙ ap all_postings visit_records_for_key-scan_records
