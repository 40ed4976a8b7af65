-- ===== src/IdxText/Verify/Clean.antt =====
-- What a clean report says of the index, and that it licenses the searches.
use callbook_rs.Prelude.{
  All, Bool-cases, Bytes, Holds, List, Option, [], arith, false, filter, inl, leb, length, none,
  not, refl, sym, true, ℕ, ◌+◌, ◌<◌, ◌∙◌, ◌≡◌, ◌≤◌, inr,
}
use callbook_rs.Prelude.Order.{lt_bytes, le_trans_bytes}
use callbook_rs.IdxText.Line.{TextEntry}
use callbook_rs.IdxText.Build.{TextIdxFile, iter}
use callbook_rs.IdxText.Find.Sorted.{KeysSorted}
use callbook_rs.IdxText.Verify.{
  VerifyReport, Walk, is_clean, visit_entry, visit_entries, conclude, verify, key_goes_back,
  offset_stays, is_idx_byte, ◌∷◌, some, bump_if, start_walk,
}

abbrev pub OffsetsIncrease : List TextEntry → Type 0
OffsetsIncrease [] = Unit
OffsetsIncrease (x ∷ xs) = All (λ y. x.dat_offset < y.dat_offset) xs × OffsetsIncrease xs

abbrev KeyBound : Option Bytes → List TextEntry → Type 0
KeyBound none xs = Unit
KeyBound (some k) xs = All (λ x. lt_bytes x.key k ≡ false) xs

abbrev OffsetBound : Option ℕ → List TextEntry → Type 0
OffsetBound none xs = Unit
OffsetBound (some n) xs = All (λ x. n < x.dat_offset) xs

KeyBound-lower :
    (k : Bytes) (x : TextEntry) (xs : List TextEntry)
    → lt_bytes x.key k ≡ false
    → All (λ y. lt_bytes y.key x.key ≡ false) xs
    → All (λ y. lt_bytes y.key k ≡ false) xs
KeyBound-lower k x [] h a = tt
KeyBound-lower k x (y ∷ xs) h a = (le_trans_bytes k x.key y.key h a.0, KeyBound-lower k x xs h a.1)

OffsetBound-lower :
    (n m : ℕ) (xs : List TextEntry)
    → n < m
    → All (λ y. m < y.dat_offset) xs
    → All (λ y. n < y.dat_offset) xs
OffsetBound-lower n m [] h a = tt
OffsetBound-lower n m (y ∷ xs) h a = (omega arith, OffsetBound-lower n m xs h a.1)

KeyBound-nil : (o : Option Bytes) → KeyBound o []
KeyBound-nil none = tt
KeyBound-nil (some k) = tt

OffsetBound-nil : (o : Option ℕ) → OffsetBound o []
OffsetBound-nil none = tt
OffsetBound-nil (some n) = tt

key_step :
    (prev : Option Bytes) (n : ℕ) (x : TextEntry) (xs : List TextEntry)
    → bump_if (key_goes_back prev x.key) n ≡ 0
    → All (λ y. lt_bytes y.key x.key ≡ false) xs
    → (n ≡ 0) × KeyBound prev (x ∷ xs)
key_step none n x xs h a = (h, tt)
key_step (some k) n x xs h a = elim (Bool-cases (lt_bytes x.key k)) [
  | inl e ↦ absurd (ground arith)
  | inr e ↦ (ground arith, (e, KeyBound-lower k x xs e a))
]

offset_step :
    (prev : Option ℕ) (n : ℕ) (x : TextEntry) (xs : List TextEntry)
    → bump_if (offset_stays prev x.dat_offset) n ≡ 0
    → All (λ y. x.dat_offset < y.dat_offset) xs
    → (n ≡ 0) × OffsetBound prev (x ∷ xs)
offset_step none n x xs h a = (h, tt)
offset_step (some m) n x xs h a = elim (Bool-cases (leb x.dat_offset m)) [
  | inl e ↦ absurd (ground arith)
  | inr e ↦
      let lt : m < x.dat_offset = ground arith in
      (ground arith, (lt, OffsetBound-lower m x.dat_offset xs lt a))
]

-- No violation at the end means none on the way.
keys_in_order :
    (w : Walk) (xs : List TextEntry)
    → (visit_entries w xs).rep.key_order_violations ≡ 0
    → (w.rep.key_order_violations ≡ 0) × KeysSorted xs × KeyBound w.prev_key xs
unfolding visit_entries
keys_in_order w [] h = (h, tt, KeyBound-nil w.prev_key)
keys_in_order w (x ∷ xs) h =
    let (here, sorted, bound) = keys_in_order (visit_entry w x) xs h in
    let (n, b) = key_step w.prev_key w.rep.key_order_violations x xs here bound in
    (n, (bound, sorted), b)

offsets_in_order :
    (w : Walk) (xs : List TextEntry)
    → (visit_entries w xs).rep.offset_monotonicity_violations ≡ 0
    → (w.rep.offset_monotonicity_violations ≡ 0) × OffsetsIncrease xs × OffsetBound w.prev_off xs
unfolding visit_entries
offsets_in_order w [] h = (h, tt, OffsetBound-nil w.prev_off)
offsets_in_order w (x ∷ xs) h =
    let (here, sorted, bound) = offsets_in_order (visit_entry w x) xs h in
    let (n, b) = offset_step w.prev_off w.rep.offset_monotonicity_violations x xs here bound in
    (n, (bound, sorted), b)

entries-visit_entries :
    (w : Walk) (xs : List TextEntry) → (visit_entries w xs).rep.entries ≡ w.rep.entries + length xs
unfolding visit_entries
entries-visit_entries w [] = omega arith
entries-visit_entries w (x ∷ xs) = omega (arith, entries-visit_entries (visit_entry w x) xs)

-- The loop writes neither the byte count nor the count of unparsed lines.
counts-visit_entries :
    (w : Walk) (xs : List TextEntry)
    → ((visit_entries w xs).rep.non_ascii_bytes ≡ w.rep.non_ascii_bytes)
      × ((visit_entries w xs).rep.parse_failures ≡ w.rep.parse_failures)
unfolding visit_entries
counts-visit_entries w [] = (refl, refl)
counts-visit_entries w (x ∷ xs) = counts-visit_entries (visit_entry w x) xs

no_bad_bytes :
    (bs : Bytes) → length (filter (λ b. not (is_idx_byte b)) bs) ≡ 0 → All (Holds is_idx_byte) bs
no_bad_bytes [] h = tt
no_bad_bytes (b ∷ bs) h = elim (Bool-cases (is_idx_byte b)) [
  | inl e ↦ (e, no_bad_bytes bs (ground arith))
  | inr e ↦ absurd (ground arith)
]

-- What a report without a violation counted.
record Clean (rep : VerifyReport) : Type 0 where
  bytes_ok : rep.non_ascii_bytes ≡ 0
  lines_ok : rep.parse_failures ≡ 0
  keys_ok : rep.key_order_violations ≡ 0
  offsets_ok : rep.offset_monotonicity_violations ≡ 0
  some_entry : 0 < rep.entries

is_clean-Clean : (rep : VerifyReport) → is_clean rep ≡ true → Clean rep
unfolding is_clean
is_clean-Clean rep h = record {
  bytes_ok = ground arith;
  lines_ok = ground arith;
  keys_ok = ground arith;
  offsets_ok = ground arith;
  some_entry = ground arith;
}

-- If the report of `verify` is clean then the iterator yields at least one entry, its keys never go
-- down and its offsets strictly increase, it yields an entry for each counted line at least, and
-- the file has no byte but tab, CR, LF and printable ASCII.
pub verify_clean :
    (idx : TextIdxFile)
    → is_clean (verify idx) ≡ true
    → KeysSorted (iter idx)
      × OffsetsIncrease (iter idx)
      × (idx.line_count ≤ length (iter idx))
      × (0 < length (iter idx))
      × All (Holds is_idx_byte) idx.mmap
unfolding verify conclude
verify_clean idx h =
    let c = is_clean-Clean (verify idx) h in
    let start = start_walk idx in
    let n = entries-visit_entries start (iter idx) in
    let kept = counts-visit_entries start (iter idx) in
    (
      (keys_in_order start (iter idx) c.keys_ok).1,
      (offsets_in_order start (iter idx) c.offsets_ok).1,
      ground (arith, c.lines_ok, n, kept.1),
      ground (arith, c.some_entry, n),
      no_bad_bytes idx.mmap (sym kept.0 ∙ c.bytes_ok),
    )
