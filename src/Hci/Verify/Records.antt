-- ===== src/Hci/Verify/Records.antt =====
-- What a report without violations says of the records.
use callbook_rs.Prelude.{
  Bool-cases, Bytes, List, Option, [], ap, arith, drop, false, get_elem?, inl, inr, length,
  length-drop, length-take, ltb, none, refl, slice, subst, sym, unwrap_or, zero, ℕ, ◌*◌, ◌+◌, ◌-◌,
  ◌<◌, ◌^◌, ◌∙◌, ◌∷◌, ◌≡◌, ◌≤◌,
}
use callbook_rs.Hci.Data.{
  HciFile, RawHciRecord, offset, raw_record, raw_between, raw_at, outside, len,
}
use callbook_rs.Hci.KeyIndex.{chunk_offsets}
use callbook_rs.Hci.KeyIndex.Refs.{be_u32?-chunk_offsets, length-chunk_offsets}
use callbook_rs.Hci.Verify.{
  bump_if, OffsetScan, visit_pair, visit_offset, visit_offsets, verify_hci, start_scan, visit_last,
  last_offset_of, some, suc, bump_if,
}

-- The offset, if there is one, is at most the size and above the one before it.
abbrev Fits : ℕ → Option ℕ → Option ℕ → Type 0
Fits size prev none = ⊥
Fits size none (some off) = off ≤ size
Fits size (some p) (some off) = (p < off) × (off ≤ size)

abbrev AllFit : HciFile → ℕ → ℕ → Option ℕ → Type 0
AllFit hci zero i prev = Unit
AllFit hci (suc count) i prev =
    Fits (length hci.dat_mmap) prev (offset hci i) × AllFit hci count (i + 1) (offset hci i)

abbrev NoViolation : OffsetScan → Type 0
NoViolation scan = (scan.offset_order_violations ≡ 0) × (scan.out_of_bounds_offsets ≡ 0)

step-Fits :
    (size : ℕ) (o : Option ℕ) (scan : OffsetScan)
    → NoViolation (visit_offset size o scan)
    → NoViolation scan × Fits size scan.prev o × ((visit_offset size o scan).prev ≡ o)
step-Fits size none scan h = absurd (omega (arith, h.1))
step-Fits size (some off) scan h = go scan.prev h
  where
    go :
        (p : Option ℕ)
        → NoViolation
            (record (visit_pair p off (record scan {
              out_of_bounds_offsets = bump_if (ltb size off) scan.out_of_bounds_offsets;
            })) { prev = some off })
        → NoViolation scan × Fits size p (some off) × ◌≡◌ {A = Option ℕ} (some off) (some off)
    go none h = ((ground (arith, h.0), ground (arith, h.1)), ground (arith, h.1), refl)
    go (some p) h = (
      (ground (arith, h.0), ground (arith, h.1)),
      (ground (arith, h.0), ground (arith, h.1)),
      refl,
    )

visit_offsets-AllFit :
    (hci : HciFile) (count i : ℕ) (scan : OffsetScan)
    → NoViolation (visit_offsets hci count i scan)
    → NoViolation scan × AllFit hci count i scan.prev
unfolding visit_offsets
visit_offsets-AllFit hci zero i scan h = (h, tt)
visit_offsets-AllFit hci (suc count) i scan h =
    let size = length hci.dat_mmap in
    let (now, rest) =
      visit_offsets-AllFit hci count (i + 1) (visit_offset size (offset hci i) scan) h in
    let (before, fits, is) = step-Fits size (offset hci i) scan now in
    (before, (fits, subst (AllFit hci count (i + 1)) is rest))

Fits-some :
    (size : ℕ) (prev o : Option ℕ) → Fits size prev o → (off : ℕ) × (o ≡ some off) × (off ≤ size)
Fits-some size prev none h = absurd h
Fits-some size none (some off) h = (off, refl, h)
Fits-some size (some p) (some off) h = (off, refl, h.1)

AllFit-at :
    (hci : HciFile) (count i : ℕ) (prev : Option ℕ) (j : ℕ)
    → AllFit hci count i prev
    → j < count
    → (off : ℕ) × (offset hci (i + j) ≡ some off) × (off ≤ length hci.dat_mmap)
AllFit-at hci zero i prev j h lt = absurd (omega arith)
AllFit-at hci (suc count) i prev zero h lt =
    let e : i + 0 ≡ i = omega arith in
    subst (λ k. (off : ℕ) × (offset hci k ≡ some off) × (off ≤ length hci.dat_mmap)) (sym e)
      (Fits-some (length hci.dat_mmap) prev (offset hci i) h.0)
AllFit-at hci (suc count) i prev (suc j) h lt =
    let e : i + 1 + j ≡ i + suc j = omega arith in
    subst (λ k. (off : ℕ) × (offset hci k ≡ some off) × (off ≤ length hci.dat_mmap)) e
      (AllFit-at hci count (i + 1) (offset hci i) j h.1 (omega arith))

AllFit-next :
    (hci : HciFile) (count i : ℕ) (prev : Option ℕ) (j : ℕ)
    → AllFit hci count i prev
    → suc j < count
    → Fits (length hci.dat_mmap) (offset hci (i + j)) (offset hci (i + j + 1))
AllFit-next hci zero i prev j h lt = absurd (omega arith)
AllFit-next hci (suc zero) i prev zero h lt = absurd (omega arith)
AllFit-next hci (suc (suc count)) i prev zero h lt =
    let e : i ≡ i + 0 = omega arith in
    subst (λ k. Fits (length hci.dat_mmap) (offset hci k) (offset hci (k + 1))) e h.1.0
AllFit-next hci (suc count) i prev (suc j) h lt =
    let e : i + 1 + j ≡ i + suc j = omega arith in
    subst (λ k. Fits (length hci.dat_mmap) (offset hci k) (offset hci (k + 1))) e
      (AllFit-next hci count (i + 1) (offset hci i) j h.1 (omega arith))

get_elem?-past {ℓ} : {A : Type ℓ} (xs : List A) (i : ℕ) → length xs ≤ i → get_elem? xs i ≡ none
get_elem?-past [] i h = refl
get_elem?-past (x ∷ xs) zero h = absurd (omega arith)
get_elem?-past (x ∷ xs) (suc i) h = get_elem?-past xs i (omega arith)

-- There is no offset behind the last one.
offset-len : (hci : HciFile) → offset hci (len hci) ≡ none
unfolding offset
offset-len hci = elim (Bool-cases (ltb (len hci * 4) (2 ^ 64))) [
  | inl e ↦ rw e (
      be_u32?-chunk_offsets (len hci) hci.index_mmap
      ∙ get_elem?-past (chunk_offsets hci.index_mmap) (len hci)
          (omega (arith, length-chunk_offsets hci.index_mmap)))
  | inr e ↦ rw e refl
]

raw_between-fits :
    (dat : Bytes) (i start end : ℕ)
    → start ≤ end
    → end ≤ length dat
    → (raw : RawHciRecord) × (raw_between dat i start end ≡ some raw)
      × (raw.dat_offset ≡ start)
      × (start + raw.raw_len ≡ end)
raw_between-fits dat i start end h k =
    let fits : outside (length dat) start end ≡ false = ground arith in
    let bytes = slice dat start end in
    let size : length bytes ≡ end - start =
      omega (arith, length-take {0} (end - start) (drop start dat), length-drop {0} start dat) in
    (raw_at i start bytes, rw fits refl, refl, omega (arith, size))

counters-visit_last :
    (size : ℕ) (o : Option ℕ) (scan : OffsetScan)
    → ((visit_last size o scan).offset_order_violations ≡ scan.offset_order_violations)
      × ((visit_last size o scan).out_of_bounds_offsets ≡ scan.out_of_bounds_offsets)
counters-visit_last size none scan = (refl, refl)
counters-visit_last size (some last) scan = (refl, refl)

abbrev end_of : HciFile → ℕ → ℕ
end_of hci i = unwrap_or (offset hci (i + 1)) (length hci.dat_mmap)

raw_record-some :
    (hci : HciFile) (i start : ℕ)
    → offset hci i ≡ some start
    → raw_record hci i ≡ raw_between hci.dat_mmap i start (end_of hci i)
unfolding raw_record
raw_record-some hci i start at = rw at refl

Fits-end :
    (size start : ℕ) (o : Option ℕ)
    → Fits size (some start) o
    → (start ≤ unwrap_or o size) × (unwrap_or o size ≤ size)
Fits-end size start none h = absurd h
Fits-end size start (some off) h = (omega (arith, h.0), h.1)

end_bounds :
    (hci : HciFile) (i start : ℕ)
    → AllFit hci (len hci) 0 none
    → offset hci i ≡ some start
    → start ≤ length hci.dat_mmap
    → i < len hci
    → (start ≤ end_of hci i) × (end_of hci i ≤ length hci.dat_mmap)
end_bounds hci i start fit at le lt = elim (Bool-cases (ltb (i + 1) (len hci))) [
  | inl more ↦
      let e : 0 + i ≡ i = omega arith in
      let next =
        subst (λ k. Fits (length hci.dat_mmap) (offset hci k) (offset hci (k + 1))) e
          (AllFit-next hci (len hci) 0 none i fit (ground arith)) in
      Fits-end (length hci.dat_mmap) start (offset hci (i + 1))
        (subst (λ o. Fits (length hci.dat_mmap) o (offset hci (i + 1))) at next)
  | inr last ↦
      let is : i + 1 ≡ len hci = ground arith in
      let gone : offset hci (i + 1) ≡ none = ap (offset hci) is ∙ offset-len hci in
      rw gone (le, omega arith)
]

-- If the report of `verify` counts no offset out of order and none out of bounds, then every
-- ordinal below the length has a record, and each record ends where the next one starts, the last
-- one with the file.
pub raw_record-verify_hci :
    (hci : HciFile) (i : ℕ)
    → (verify_hci hci).offset_order_violations ≡ 0
    → (verify_hci hci).out_of_bounds_offsets ≡ 0
    → i < len hci
    → (raw : RawHciRecord) × (raw_record hci i ≡ some raw)
      × (offset hci i ≡ some raw.dat_offset)
      × (unwrap_or (offset hci (i + 1)) (length hci.dat_mmap) ≡ raw.dat_offset + raw.raw_len)
unfolding verify_hci
raw_record-verify_hci hci i order bounds lt =
    let size = length hci.dat_mmap in
    let scan = visit_offsets hci (len hci) 0 start_scan in
    let same = counters-visit_last size (last_offset_of hci) scan in
    let fit =
      (visit_offsets-AllFit hci (len hci) 0 start_scan
        (sym same.0 ∙ order, sym same.1 ∙ bounds)).1 in
    let e : 0 + i ≡ i = omega arith in
    let (start, at, le) =
      subst (λ k. (off : ℕ) × (offset hci k ≡ some off) × (off ≤ size)) e
        (AllFit-at hci (len hci) 0 none i fit lt) in
    let bounds' = end_bounds hci i start fit at le lt in
    let (raw, found, begins, ends) =
      raw_between-fits hci.dat_mmap i start (end_of hci i) bounds'.0 bounds'.1 in
    (
      raw,
      raw_record-some hci i start at ∙ found,
      at ∙ ap some (sym begins),
      sym ends ∙ ap (λ s. s + raw.raw_len) (sym begins),
    )
