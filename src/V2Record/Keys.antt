-- ===== src/V2Record/Keys.antt =====
-- The keys of parsed records.
use callbook_rs.Prelude.{
  All, Bytes, Holds, List, Option, Option-cases, [], all, all→All, and-true, ap, arith, filter_map,
  inl, is_empty, leb, leb→le, length, map_option, map_option-eq-some, none, not, some,
  some-injective, subst, sym, true, ℕ, ◌&&◌, ◌<◌, ◌^◌, ◌∷◌, ◌≡◌, ◌≤◌, inr,
}
use callbook_rs.Prelude.Text.{split_once, head_before}
use callbook_rs.Decimal.{parse_uint, lt-parse_uint}
use callbook_rs.Modern.Snapshot.{CallSnapshot}
use callbook_rs.V2Record.Text.{is_key_char, looks_like_key, split_key}
use callbook_rs.V2Record.Segment.{Tables, parse_segment, parse_snapshots}
use callbook_rs.V2Record.Match.{parse_segment-Parsed, callsign-split_key}
use callbook_rs.V2Record.Cut.{cut}
use callbook_rs.V2Record.Laws.{parse_snapshots-cut}

abbrev pub IsKeyCallsign : Bytes → Type 0
IsKeyCallsign c = (0 < length c) × (length c ≤ 12) × All (Holds is_key_char) c

abbrev pub IsU16 : Option ℕ → Type 0
IsU16 none = Unit
IsU16 (some v) = v < 2 ^ 16

abbrev pub IsKeyed : CallSnapshot → Type 0
IsKeyed s = IsKeyCallsign s.callsign × IsU16 s.vintage

looks-IsKeyCallsign :
    (call : Bytes)
    → (not (is_empty call) && leb (length call) 12 && all is_key_char call) ≡ true
    → IsKeyCallsign call
looks-IsKeyCallsign [] h = absurd (ground (arith, h))
looks-IsKeyCallsign (b ∷ bs) h =
    let (short, chars) = and-true (leb (length (b ∷ bs)) 12) (all is_key_char (b ∷ bs)) h in
    (omega arith, leb→le (length (b ∷ bs)) 12 short, all→All is_key_char (b ∷ bs) chars)

looks_like_key-IsKeyCallsign :
    (key : Bytes) → looks_like_key key ≡ true → IsKeyCallsign (head_before b':' key)
unfolding looks_like_key
looks_like_key-IsKeyCallsign key h = looks-IsKeyCallsign (head_before b':' key) h

IsU16-with_year :
    (call text c : Bytes) (v : Option ℕ)
    → map_option {B = Bytes × Option ℕ} (λ y. (call, some y)) (parse_uint 16 text) ≡ some (c, v)
    → IsU16 v
IsU16-with_year call text c v h =
    let (y, found, is) = map_option-eq-some (λ y. (call, some y)) (parse_uint 16 text) h in
    subst IsU16 (ap (λ p. p.1) is) (lt-parse_uint 16 text y found)

IsU16-split_key : (key c : Bytes) (v : Option ℕ) → split_key key ≡ some (c, v) → IsU16 v
unfolding split_key
IsU16-split_key key c v h = elim (Option-cases (split_once b':' key)) [
  | inl e ↦
      let same : ◌≡◌ {A = Option (Bytes × Option ℕ)} (some (key, none)) (some (c, v)) = rw e at h in
      subst IsU16 (ap (λ p. p.1) (some-injective same)) tt
  | inr (parts, e) ↦ IsU16-with_year parts.0 parts.1 c v (rw e at h)
]

IsKeyed-parse_segment :
    (tables : Tables) (default_key : Option Bytes) (bytes : Bytes) (s : CallSnapshot)
    → parse_segment tables default_key bytes ≡ some s
    → IsKeyed s
IsKeyed-parse_segment tables dk bytes s h =
    let (e, parsed) = parse_segment-Parsed tables dk bytes s h in
    let (full, printable, whole, looks, split) = parsed in
    (
      subst IsKeyCallsign (sym (callsign-split_key full s.callsign s.vintage split))
          (looks_like_key-IsKeyCallsign full looks),
      IsU16-split_key full s.callsign s.vintage split,
    )

filter_map-IsKeyed :
    (tables : Tables) (default_key : Option Bytes) (segments : List Bytes)
    → All IsKeyed (filter_map (parse_segment tables default_key) segments)
filter_map-IsKeyed tables dk [] = tt
filter_map-IsKeyed tables dk (x ∷ xs) = elim (Option-cases (parse_segment tables dk x)) [
  | inl e ↦ rw e (filter_map-IsKeyed tables dk xs)
  | inr (s, e) ↦ rw e (IsKeyed-parse_segment tables dk x s e, filter_map-IsKeyed tables dk xs)
]

-- Whatever the bytes and the default key are, every snapshot of `parse_snapshots` has a callsign of 1
-- to 12 upper-case letters, digits and slashes, and a vintage below 2^16, if any.
pub parse_snapshots-IsKeyed :
    (tables : Tables) (default_key : Option Bytes) (decoded : Bytes)
    → All IsKeyed (parse_snapshots tables default_key decoded)
parse_snapshots-IsKeyed tables dk decoded =
    subst (All IsKeyed) (sym (parse_snapshots-cut tables dk decoded).0)
      (filter_map-IsKeyed tables dk (cut decoded))
