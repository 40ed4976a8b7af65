-- ===== src/Scan/Bodies.antt =====
-- What the loop of `scan_dat` makes of the bytes: the records between the marks, each with its key
-- and the value of its last interest tag.
use callbook_rs.Prelude.{
  Bool-cases, Bytes, List, Option, [], ap, ap₂, arith, false, filter_map, if◌then◌else◌, inl, inr,
  none, refl, sym, then_some, true, ℕ, ◌∙◌, ◌∷◌, ◌≡◌,
}
use callbook_rs.Cipher.{decode_from}
use callbook_rs.V2Record.Segment.{is_mark}
use callbook_rs.V2Record.Cut.{cut, starts_mark, attach_mark}
use callbook_rs.Scan.Value.{
  until_tag, interest_value, feed, feed-new_scan, scan_at, feed-key, start_record-new_scan,
}
use callbook_rs.Scan.{RecordScan, new_scan, start_record, scan_byte, scan_bytes, scan_dat}

-- The bytes behind the mark of a segment.
abbrev pub record_body : Bytes → Option Bytes
record_body [] = none
record_body (b ∷ bs) = then_some (is_mark b) bs

-- The records of a decoded file, without their marks.
abbrev pub records_in : Bytes → List Bytes
records_in decoded = filter_map record_body (cut decoded)

-- The bytes before the first mark, and before the first tag.
abbrev until_mark : Bytes → Bytes
until_mark [] = []
until_mark (b ∷ bs) = if is_mark b then [] else b ∷ until_mark bs

abbrev head_piece : List Bytes → Bytes
head_piece [] = []
head_piece (c ∷ cs) = if starts_mark c then [] else c

head_piece-cut : (bs : Bytes) → head_piece (cut bs) ≡ until_mark bs
unfolding cut
head_piece-cut [] = refl
head_piece-cut (b ∷ bs) =
    sym (head_attach b (cut bs)) ∙ ap (λ r. if is_mark b then [] else b ∷ r) (head_piece-cut bs)
  where
    head_attach :
        (b : ℕ) (cs : List Bytes)
        → (if is_mark b then [] else b ∷ head_piece cs) ≡ head_piece (attach_mark b cs)
    head_attach b [] = refl
    head_attach b (c ∷ cs) = ground arith

record_body-none : (c : Bytes) → starts_mark c ≡ false → record_body c ≡ none
record_body-none [] e = refl
record_body-none (b ∷ bs) e = rw e refl

records_attach :
    (b : ℕ) (cs : List Bytes)
    → filter_map record_body (attach_mark b cs)
      ≡ (if is_mark b then head_piece cs ∷ filter_map record_body cs else filter_map record_body cs)
records_attach b [] = elim (Bool-cases (is_mark b)) [ inl e ↦ rw e refl | inr e ↦ rw e refl ]
records_attach b (c ∷ cs) = elim (Bool-cases (starts_mark c)) [
  | inl f ↦ elim (Bool-cases (is_mark b)) [ inl e ↦ rw (f, e) refl | inr e ↦ rw (f, e) refl ]
  | inr f ↦ elim (Bool-cases (is_mark b)) [
    | inl e ↦ rw (f, e, record_body-none c f) refl
    | inr e ↦ rw (f, e, record_body-none c f) refl
  ]
]

records_in-cons :
    (b : ℕ) (bs : Bytes)
    → records_in (b ∷ bs) ≡ (if is_mark b then until_mark bs ∷ records_in bs else records_in bs)
unfolding cut
records_in-cons b bs =
    records_attach b (cut bs)
    ∙ ap (λ h. if is_mark b then h ∷ records_in bs else records_in bs) (head_piece-cut bs)

module _ {ℓ} {M : Type ℓ} (finish_record : RecordScan → M → M) where
  abbrev pub finish_all : List Bytes → M → M
  finish_all [] found = found
  finish_all (body ∷ bodies) found =
      finish_all bodies (finish_record (feed body (start_record new_scan)) found)

  scan_bytes-finish_all :
      (bs : Bytes) (scan : RecordScan) (found : M)
      → scan_bytes finish_record bs scan found
        ≡ finish_all (records_in bs) (finish_record (feed (until_mark bs) scan) found)
  unfolding scan_bytes cut start_record
  scan_bytes-finish_all [] scan found = refl
  scan_bytes-finish_all (b ∷ bs) scan found = elim (Bool-cases (is_mark b)) [
    | inl e ↦
        let step : scan_bytes finish_record (b ∷ bs) scan found
            ≡ scan_bytes finish_record bs (start_record scan) (finish_record scan found) =
          rw e refl in
        let records : records_in (b ∷ bs) ≡ until_mark bs ∷ records_in bs =
          records_in-cons b bs ∙ rw e refl in
        let before : until_mark (b ∷ bs) ≡ [] = rw e refl in
        step
        ∙ scan_bytes-finish_all bs (start_record scan) (finish_record scan found)
        ∙ sym (ap₂ (λ rs k. finish_all rs (finish_record (feed k scan) found)) records before)
    | inr e ↦
        let step : scan_bytes finish_record (b ∷ bs) scan found
            ≡ scan_bytes finish_record bs (scan_byte b scan) found =
          rw e refl in
        let records : records_in (b ∷ bs) ≡ records_in bs = records_in-cons b bs ∙ rw e refl in
        let before : until_mark (b ∷ bs) ≡ b ∷ until_mark bs = rw e refl in
        step
        ∙ scan_bytes-finish_all bs (scan_byte b scan) found
        ∙ sym (ap₂ (λ rs k. finish_all rs (finish_record (feed k scan) found)) records before)
  ]

abbrev pub visit_records {ℓ} : {M : Type ℓ} → (Bytes → Bytes → M → M) → List Bytes → M → M
visit_records visit [] found = found
visit_records visit (body ∷ bodies) found =
    visit_records visit bodies (visit (until_tag body) (interest_value body) found)

-- A `finish_record` that reads the key and the raw codes of a started record, and does nothing
-- outside of one, is called for the records between the marks, with their keys and the values of
-- their last interest tags.
pub scan_dat-visit_records {ℓ} :
    {M : Type ℓ} (finish_record : RecordScan → M → M) (visit : Bytes → Bytes → M → M)
    (encoded : Bytes) (found : M)
    → ((scan : RecordScan) (m : M)
        → scan.in_record ≡ true
        → finish_record scan m ≡ visit scan.key scan.interest_raw m)
    → ((m : M) → finish_record new_scan m ≡ m)
    → scan_dat finish_record encoded found
      ≡ visit_records visit (records_in (decode_from 0 encoded)) found
unfolding scan_dat
scan_dat-visit_records {M = M} finish_record visit encoded found reads skips =
    let decoded = decode_from 0 encoded in
    scan_bytes-finish_all finish_record decoded new_scan found
    ∙ ap (finish_all finish_record (records_in decoded))
        (ap (λ s. finish_record s found) (feed-new_scan (until_mark decoded)) ∙ skips found)
    ∙ visited (records_in decoded) found
  where
    finished :
        (body : Bytes) (m : M)
        → finish_record (feed body (start_record new_scan)) m
          ≡ visit (until_tag body) (interest_value body) m
    finished body m =
        let (k, r, i) = feed-key body [] in
        ap (λ s. finish_record (feed body s) m) (start_record-new_scan)
        ∙ reads (feed body (scan_at [] [] none false)) m i
        ∙ ap₂ (λ x y. visit x y m) k r

    visited :
        (bodies : List Bytes) (m : M)
        → finish_all finish_record bodies m ≡ visit_records visit bodies m
    visited [] m = refl
    visited (body ∷ bodies) m =
        ap (finish_all finish_record bodies) (finished body m)
        ∙ visited bodies (visit (until_tag body) (interest_value body) m)
