-- ===== src/Country/Ranges.antt =====
-- On ASCII strings no slice panics, and a rule whose range of first bytes leaves out that of the
-- callsign does not match.
use callbook_rs.Prelude.{
  All, Bool, Bool-cases, Bytes, Option-cases, [], arith, bytes_eq, false, get_elem?, if◌then◌else◌,
  inl, inr, leb, length, max, min, refl, some, starts_with, take, zero, ℕ, ◌&&◌, ◌<◌, ◌==◌, ◌∷◌,
  ◌≡◌, ◌⊎◌,
}
use callbook_rs.Prelude.Order.{le_bytes, lt_bytes}
use callbook_rs.Country.{prefix_range_matches, slice_to, suc}

abbrev pub IsAscii : ℕ → Type 0
IsAscii b = b < 128

get_elem?-IsAscii : (s : Bytes) (i b : ℕ) → All IsAscii s → get_elem? s i ≡ some b → IsAscii b
get_elem?-IsAscii [] zero b h e = ground arith
get_elem?-IsAscii [] (suc i) b h e = ground arith
get_elem?-IsAscii (x ∷ s) zero b h e = ground arith
get_elem?-IsAscii (x ∷ s) (suc i) b h e = get_elem?-IsAscii s i b h.1 e

slice_to-ascii : (s : Bytes) (i : ℕ) → All IsAscii s → slice_to s i ≡ some (take i s)
unfolding slice_to
slice_to-ascii s i h = elim (Option-cases (get_elem? s i)) [
  | inl e ↦ rw e refl
  | inr (b, e) ↦
      let small = get_elem?-IsAscii s i b h e in
      let low : leb 0x80 b ≡ false = ground arith in rw (e, low) (ground arith)
]

-- The test that `prefix_range_matches` makes.
abbrev pub range_test : Bytes → Bytes → Bytes → Bool
range_test call start end =
    let width = min (max (length start) (length end)) (length call) in
    if bytes_eq start end
    then starts_with call start
    else (le_bytes (take (min (length start) width) start) (take width call)
        && le_bytes (take width call) (take (min (length end) width) end))

pub prefix_range_matches-ascii :
    (call start end : Bytes)
    → All IsAscii call
    → All IsAscii start
    → All IsAscii end
    → prefix_range_matches call start end ≡ some (range_test call start end)
unfolding prefix_range_matches
prefix_range_matches-ascii call start end c s e = elim (Bool-cases (bytes_eq start end)) [
  | inl h ↦ rw h refl
  | inr h ↦
      let width = min (max (length start) (length end)) (length call) in
      rw
        (
          h,
          slice_to-ascii call width c,
          slice_to-ascii start (min (length start) width) s,
          slice_to-ascii end (min (length end) width) e,
        )
        refl
]

range_outside :
    (b : ℕ) (call : Bytes) (s : ℕ) (start : Bytes) (e : ℕ) (end : Bytes)
    → (b < min s e) ⊎ (max s e < b)
    → (le_bytes (s ∷ start) (b ∷ call) && le_bytes (b ∷ call) (e ∷ end)) ≡ false
unfolding lt_bytes
range_outside b call s start e end (inl h) = ground arith
range_outside b call s start e end (inr h) = ground arith

pub range_test-outside :
    (b : ℕ) (call : Bytes) (s : ℕ) (start : Bytes) (e : ℕ) (end : Bytes)
    → (b < min s e) ⊎ (max s e < b)
    → range_test (b ∷ call) (s ∷ start) (e ∷ end) ≡ false
unfolding bytes_eq starts_with
range_test-outside b call s start e end h = elim (Bool-cases (s == e && bytes_eq start end)) [
  | inl same ↦ rw same (elim h [ inl low ↦ ground arith | inr high ↦ ground arith ])
  | inr other ↦
      let w = min (max (length start) (length end)) (length call) in
      let whole : min (max (suc (length start)) (suc (length end))) (suc (length call)) ≡ suc w =
        omega arith in
      let front : min (suc (length start)) (suc w) ≡ suc (min (length start) w) = omega arith in
      let back : min (suc (length end)) (suc w) ≡ suc (min (length end) w) = omega arith in
      rw (other, whole, front, back)
        (range_outside b (take w call) s (take (min (length start) w) start) e
          (take (min (length end) w) end) h)
]
