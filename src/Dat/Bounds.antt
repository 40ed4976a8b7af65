-- ===== src/Dat/Bounds.antt =====
-- The bounds of a record hold the offset and one mark, at the start.
use callbook_rs.Prelude.{
  ==_iff, All, Bool, Bool-cases, Bytes, Option, [], ap, ap₂, arith, drop, false, get_elem?, inl,
  inr, leb, length, length-drop, none, not, or_else, refl, slice, some, some-injective, subst, suc,
  sym, take, true, zero, ℕ, ◌+◌, ◌-◌, ◌<◌, ◌==◌, ◌^◌, ◌||◌, ◌∙◌, ◌∷◌, ◌≡◌, ◌≤◌, ◌⊎◌,
}
use callbook_rs.Prelude.Trim.{Fails}
use callbook_rs.Cipher.{decode_dat_byte, decode_from}
use callbook_rs.Cipher.Stream.{decode_phase-decode_from}
use callbook_rs.Dat.{
  RecordBoundsTrace, mark_at, byte_is_mark, scan_forward, scan_back,
  record_bounds_containing_offset_in, record_bounds_from_hci_posting_start_in,
  record_bounds_for_hci_posting, decode_bounds,
}

abbrev pub is_b5 : ℕ → Bool
is_b5 b = b == 0xb5

-- What the loop forward passes over.
pub scan_forward-bounds :
    (xs : Bytes) (p : ℕ)
    → (p ≤ scan_forward xs p)
      × (scan_forward xs p ≤ p + length xs)
      × All (Fails is_b5) (decode_from p (take (scan_forward xs p - p) xs))
unfolding scan_forward decode_from
scan_forward-bounds [] p = (omega arith, omega arith, nothing (p - p))
  where
    nothing : (n : ℕ) → All (Fails is_b5) (decode_from p (take n []))
    nothing zero = tt
    nothing (suc n) = tt
scan_forward-bounds (x ∷ xs) p = elim (Bool-cases (decode_dat_byte p x == 0xb5)) [
  | inl e ↦
      let none_left : p - p ≡ 0 = omega arith in rw e (omega arith, omega arith, rw none_left tt)
  | inr e ↦
      let (low, high, clear) = scan_forward-bounds xs (p + 1) in
      let n = scan_forward xs (p + 1) in
      let size : n - p ≡ suc (n - (p + 1)) = omega (arith, low) in
      rw e (omega (arith, low), omega (arith, high), rw size (e, clear))
]

drop_at :
    (xs : Bytes) (p : ℕ)
    → p < length xs
    → (b : ℕ) × (get_elem? xs p ≡ some b) × (drop p xs ≡ b ∷ drop (p + 1) xs)
drop_at [] p h = absurd (omega (arith, h))
drop_at (x ∷ xs) zero h = (x, refl, refl)
drop_at (x ∷ xs) (suc p) h =
    let (b, at, split) = drop_at xs p (omega (arith, h)) in
    let e : suc (p + 1) ≡ suc p + 1 = omega arith in
    (b, at, split ∙ ap (λ n. b ∷ drop n (x ∷ xs)) e)

passes :
    (dat : Bytes) (p : ℕ)
    → p < length dat
    → mark_at dat p ≡ false
    → scan_forward (drop p dat) p ≡ scan_forward (drop (p + 1) dat) (p + 1)
unfolding scan_forward mark_at
passes dat p h e =
    let (b, at, split) = drop_at dat p h in
    let plain : byte_is_mark p (some b) ≡ false = ap (byte_is_mark p) (sym at) ∙ e in
    ap (λ xs. scan_forward xs p) split ∙ rw plain refl

-- Between the mark that the loop backward finds and the offset there is no other.
scan_back-scan_forward :
    (dat : Bytes) (p : ℕ)
    → p < length dat
    → (scan_back dat p ≤ p)
      × (scan_forward (drop (scan_back dat p + 1) dat) (scan_back dat p + 1)
          ≡ scan_forward (drop (p + 1) dat) (p + 1))
unfolding scan_back
scan_back-scan_forward dat zero h = (omega arith, refl)
scan_back-scan_forward dat (suc p) h = elim (Bool-cases (mark_at dat (suc p))) [
  | inl e ↦ rw e (omega arith, refl)
  | inr e ↦
      let (low, same) = scan_back-scan_forward dat p (omega (arith, h)) in
      let next : p + 1 ≡ suc p = omega arith in
      let step = ap (λ n. scan_forward (drop n dat) n) next ∙ passes dat (suc p) h e in
      rw e (omega (arith, low), same ∙ step)
]

-- The record holds the offset, lies in the file, and has its only mark at the start.
abbrev pub HoldsRecord : Bytes → ℕ → RecordBoundsTrace → Type 0
HoldsRecord dat off b =
    (b.start ≤ off)
    × (off < b.end)
    × (b.end ≤ length dat)
    × (mark_at dat b.start ≡ true)
    × All (Fails is_b5)
        (decode_from (b.start + 1) (take (b.end - (b.start + 1)) (drop (b.start + 1) dat)))

HoldsRecord-start :
    (dat : Bytes) (off : ℕ) (b : RecordBoundsTrace)
    → record_bounds_from_hci_posting_start_in dat off ≡ some b
    → HoldsRecord dat off b
unfolding record_bounds_from_hci_posting_start_in
HoldsRecord-start dat off b h = elim (Bool-cases (leb (length dat) off || not (mark_at dat off))) [
  | inl e ↦ let no : none ≡ some b = rw e at h in absurd (ground arith)
  | inr e ↦
      let (low, high, clear) = scan_forward-bounds (drop (off + 1) dat) (off + 1) in
      let size = length-drop (off + 1) dat in
      let inside : off < length dat = ground (arith, e) in
      subst (HoldsRecord dat off) (some-injective (rw e at h)) (
        omega arith,
        omega (arith, low),
        omega (arith, high, size, inside),
        ground (arith, e),
        clear,
      )
]

HoldsRecord-containing :
    (dat : Bytes) (off : ℕ) (b : RecordBoundsTrace)
    → record_bounds_containing_offset_in dat off ≡ some b
    → HoldsRecord dat off b
unfolding record_bounds_containing_offset_in
HoldsRecord-containing dat off b h =
    let start = scan_back dat off in
    elim (Bool-cases (leb (length dat) off)) [
      | inl e ↦ let no : none ≡ some b = rw e at h in absurd (ground arith)
      | inr e ↦ elim (Bool-cases (mark_at dat start)) [
        | inr f ↦ let no : none ≡ some b = rw (e, f) at h in absurd (ground arith)
        | inl f ↦
            let inside : off < length dat = ground (arith, e) in
            let (below, same) = scan_back-scan_forward dat off inside in
            let (low, high, clear) = scan_forward-bounds (drop (start + 1) dat) (start + 1) in
            let beyond = (scan_forward-bounds (drop (off + 1) dat) (off + 1)).0 in
            let size = length-drop (start + 1) dat in
            subst (HoldsRecord dat off) (some-injective (rw (e, f) at h)) (
              below,
              omega (arith, same, beyond),
              omega (arith, high, size, inside, below),
              f,
              clear,
            )
      ]
    ]

or_else-eq-some {ℓ} :
    {A : Type ℓ} (x y : Option A) {a : A} → or_else x y ≡ some a → (x ≡ some a) ⊎ (y ≡ some a)
or_else-eq-some none y h = inr h
or_else-eq-some (some x) y h = inl h

pub record_bounds-HoldsRecord :
    (dat : Bytes) (off : ℕ) (b : RecordBoundsTrace)
    → record_bounds_for_hci_posting dat off ≡ some b
    → HoldsRecord dat off b
unfolding record_bounds_for_hci_posting
record_bounds-HoldsRecord dat off b h =
    elim (or_else-eq-some (record_bounds_from_hci_posting_start_in dat off)
      (record_bounds_containing_offset_in dat off) h) [
        | inl e ↦ HoldsRecord-start dat off b e
        | inr e ↦ HoldsRecord-containing dat off b e
      ]

decode_slice :
    (dat : Bytes) (s e : ℕ)
    → s < e
    → e ≤ length dat
    → mark_at dat s ≡ true
    → decode_from s (slice dat s e)
      ≡ 0xb5 ∷ decode_from (s + 1) (take (e - (s + 1)) (drop (s + 1) dat))
unfolding decode_from mark_at
decode_slice dat s e lt le m =
    let (b, at, split) = drop_at dat s (omega (arith, lt, le)) in
    let marked : byte_is_mark s (some b) ≡ true = ap (byte_is_mark s) (sym at) ∙ m in
    let size : e - s ≡ suc (e - (s + 1)) = omega (arith, lt) in
    ap₂ (λ n xs. decode_from s (take n xs)) size split
    ∙ ap (λ x. x ∷ decode_from (s + 1) (take (e - (s + 1)) (drop (s + 1) dat)))
        ((==_iff (decode_dat_byte s b) 0xb5).0 marked)

-- In a file below 2^63 bytes, the bounds that `record_bounds_for_hci_posting` finds for an offset hold
-- it and lie in the file, so that slicing does not panic, and the bytes decoded from them are one
-- record: the mark 0xb5 followed by no other.
pub decode_bounds-record_bounds :
    (dat : Bytes) (off : ℕ) (b : RecordBoundsTrace)
    → length dat < 2 ^ 63
    → record_bounds_for_hci_posting dat off ≡ some b
    → (b.start ≤ off)
      × (off < b.end)
      × (b.end ≤ length dat)
      × (rest : Bytes) × (decode_bounds dat b.start b.end ≡ 0xb5 ∷ rest)
      × All (Fails is_b5) rest
unfolding decode_bounds
decode_bounds-record_bounds dat off b small h =
    let (low, high, le, mark, clear) = record_bounds-HoldsRecord dat off b h in
    (
      low,
      high,
      le,
      decode_from (b.start + 1) (take (b.end - (b.start + 1)) (drop (b.start + 1) dat)),
      decode_phase-decode_from b.start (slice dat b.start b.end)
            (omega (arith, small, low, high, le))
          ∙ decode_slice dat b.start b.end (omega (arith, low, high)) le mark,
      clear,
    )
