-- ===== src/V2Record/Match.antt =====
-- `segment_matches` decides on the callsign that `parse_segment` reads.
use callbook_rs.Prelude.{
  ==_iff, >>=-eq-some, Bool-cases, Bytes, Option, Option-cases, [], all, ap, arith, drop, false,
  inl, inr, is_empty, map_option, map_option-eq-some, none, not, some, some-injective, starts_with,
  subst, sym, take, true, ℕ, ◌&&◌, ◌++◌, ◌==◌, ◌>>=◌, ◌∙◌, ◌∷◌, ◌≡◌,
}
use callbook_rs.Prelude.Text.{split_once, head_before, split_once-head_before, strip_prefix}
use callbook_rs.Decimal.{parse_uint}
use callbook_rs.Modern.Snapshot.{CallSnapshot}
use callbook_rs.V2Record.Text.{
  is_printable, trim_ascii, clean_ascii, looks_like_key, split_key, ascii_eq_ignore_case,
}
use callbook_rs.V2Record.Segment.{
  Tables, fill_snapshot, parse_segment, segment_matches, parse_key, full_key, checked_key,
  key_matches, key_end, without_mark,
}
use callbook_rs.V2Record.Identity.{SameRecord-fill_snapshot}

callsign-with_year :
    (call c : Bytes) (v o : Option ℕ)
    → map_option {B = Bytes × Option ℕ} (λ y. (call, some y)) o ≡ some (c, v)
    → c ≡ call
callsign-with_year call c v none h = absurd (ground (arith, h))
callsign-with_year call c v (some y) h = ap (λ p. p.0) (sym (some-injective h))

pub callsign-split_key :
    (key c : Bytes) (v : Option ℕ) → split_key key ≡ some (c, v) → c ≡ head_before b':' key
unfolding split_key head_before
callsign-split_key key c v h = elim (Option-cases (split_once b':' key)) [
  | inl e ↦
      let same : ◌≡◌ {A = Option (Bytes × Option ℕ)} (some (key, none)) (some (c, v)) = rw e at h in
      rw e (ap (λ p. p.0) (sym (some-injective same)))
  | inr (parts, e) ↦ rw e (callsign-with_year parts.0 c v (parse_uint 16 parts.1) (rw e at h))
]

clean_ascii-trim_ascii :
    (bytes text : Bytes)
    → clean_ascii bytes ≡ some text
    → (text ≡ trim_ascii bytes) × (all is_printable (trim_ascii bytes) ≡ true)
unfolding clean_ascii
clean_ascii-trim_ascii bytes text h = elim (Bool-cases (all is_printable (trim_ascii bytes))) [
  | inl e ↦
      let same : some (trim_ascii bytes) ≡ some text = rw e at h in (sym (some-injective same), e)
  | inr e ↦ let no : none ≡ some text = rw e at h in absurd (ground arith)
]

-- The key is a year only: the callsign is that of the default key.
year_matches-split_key :
    (default cs rest c : Bytes) (v : Option ℕ)
    → split_key (head_before b':' default ++ (b':' ∷ rest)) ≡ some (c, v)
    → (not (is_empty rest) && ascii_eq_ignore_case (head_before b':' default) cs)
      ≡ ascii_eq_ignore_case c cs
unfolding split_key parse_uint
year_matches-split_key default cs [] c v h =
    let no : ◌≡◌ {A = Option (Bytes × Option ℕ)} none (some (c, v)) =
      rw (split_once-head_before b':' default []) at h in
    absurd (ground arith)
year_matches-split_key default cs (r ∷ rest) c v h =
    let call = head_before b':' default in
    let is =
      callsign-with_year call c v (parse_uint 16 (r ∷ rest))
        (rw (split_once-head_before b':' default (r ∷ rest)) at h) in
    ap (λ s. ascii_eq_ignore_case s cs) (sym is)

key_matches-full_key :
    (default_key : Option Bytes) (cs key full c : Bytes) (v : Option ℕ)
    → full_key default_key key ≡ some full
    → split_key full ≡ some (c, v)
    → key_matches default_key cs key ≡ ascii_eq_ignore_case c cs
unfolding full_key starts_with strip_prefix
key_matches-full_key dk cs [] full c v h k =
    ap (λ s. ascii_eq_ignore_case s cs)
      (ap (head_before b':') (some-injective h) ∙ sym (callsign-split_key full c v k))
key_matches-full_key dk cs (b ∷ rest) full c v h k = elim (Bool-cases (b == b':')) [
  | inl e ↦
      let colon : b ≡ b':' = (==_iff b b':').0 e in
      let found : (dk >>= clean_ascii >>= λ default. some (head_before b':' default ++ (b ∷ rest)))
          ≡ some full =
        rw e at h in
      let (default, cleaned, whole) =
        >>=-eq-some (dk >>= clean_ascii) (λ d. some (head_before b':' d ++ (b ∷ rest))) found in
      let (given, is, clean) = >>=-eq-some dk clean_ascii cleaned in
      let trimmed = (clean_ascii-trim_ascii given default clean).0 in
      let split : split_key (head_before b':' default ++ (b':' ∷ rest)) ≡ some (c, v) =
        subst (λ x. split_key (head_before b':' default ++ (x ∷ rest)) ≡ some (c, v)) colon
          (ap split_key (some-injective whole) ∙ k) in
      rw (e, is, sym trimmed) (year_matches-split_key default cs rest c v split)
  | inr e ↦
      let whole : some (b ∷ rest) ≡ some full = rw e at h in
      rw e (
        ap (λ s. ascii_eq_ignore_case s cs)
          (ap (head_before b':') (some-injective whole) ∙ sym (callsign-split_key full c v k)))
]

checked_key-same :
    (key k : Bytes) → checked_key key ≡ some k → (k ≡ key) × (looks_like_key key ≡ true)
checked_key-same key k h = elim (Bool-cases (looks_like_key key)) [
  | inl e ↦ let same : some key ≡ some k = rw e at h in (sym (some-injective same), e)
  | inr e ↦ let no : none ≡ some k = rw e at h in absurd (ground arith)
]

-- The steps of `parse_key`.
abbrev pub KeyParsed : Option Bytes → Bytes → Bytes → Option ℕ → Type 0
KeyParsed default_key head c v =
    (full : Bytes) × (all is_printable (trim_ascii head) ≡ true)
    × (full_key default_key (trim_ascii head) ≡ some full)
    × (looks_like_key full ≡ true)
    × (split_key full ≡ some (c, v))

pub parse_key-KeyParsed :
    (default_key : Option Bytes) (head c : Bytes) (v : Option ℕ)
    → parse_key default_key head ≡ some (c, v)
    → KeyParsed default_key head c v
parse_key-KeyParsed dk head c v h =
    let (checked, before, split) =
      >>=-eq-some (clean_ascii head >>= full_key dk >>= checked_key) split_key h in
    let (full, earlier, check) =
      >>=-eq-some (clean_ascii head >>= full_key dk) checked_key before in
    let (key, clean, whole) = >>=-eq-some (clean_ascii head) (full_key dk) earlier in
    let (trimmed, printable) = clean_ascii-trim_ascii head key clean in
    let (same, looks) = checked_key-same full checked check in
    (
      full,
      printable,
      ap (full_key dk) (sym trimmed) ∙ whole,
      looks,
      ap split_key (sym same) ∙ split,
    )

-- What `parse_segment` reads.
abbrev pub Parsed : Tables → Option Bytes → Bytes → CallSnapshot → Type 0
Parsed tables default_key segment s =
    (is_empty segment ≡ false)
    × KeyParsed default_key (take (key_end segment) segment) s.callsign s.vintage

pub parse_segment-Parsed :
    (tables : Tables) (default_key : Option Bytes) (bytes : Bytes) (s : CallSnapshot)
    → parse_segment tables default_key bytes ≡ some s
    → Parsed tables default_key (without_mark bytes) s
unfolding parse_segment
parse_segment-Parsed tables dk bytes s h =
    let segment = without_mark bytes in
    let head = take (key_end segment) segment in
    let fields = drop (key_end segment) segment in
    elim (Bool-cases (is_empty segment)) [
      | inl e ↦ let no : none ≡ some s = rw e at h in absurd (ground arith)
      | inr e ↦
          let made : map_option (fill_snapshot tables fields) (parse_key dk head) ≡ some s =
            rw e at h in
          let ((c, v), read, is) =
            map_option-eq-some (fill_snapshot tables fields) (parse_key dk head) made in
          let same = SameRecord-fill_snapshot tables fields c v in
          let parsed = parse_key-KeyParsed dk head c v read in
          (
            e,
            subst (λ x. KeyParsed dk head x s.vintage) (sym same.0 ∙ ap (λ t. t.callsign) is)
                (subst (λ y. KeyParsed dk head c y) (sym same.1 ∙ ap (λ t. t.vintage) is) parsed),
          )
    ]

-- A segment that parses matches exactly the callsigns that equal its own up to case.
pub segment_matches-parse_segment :
    (tables : Tables) (default_key : Option Bytes) (callsign bytes : Bytes) (s : CallSnapshot)
    → parse_segment tables default_key bytes ≡ some s
    → segment_matches default_key callsign bytes ≡ ascii_eq_ignore_case s.callsign callsign
unfolding segment_matches
segment_matches-parse_segment tables dk cs bytes s h =
    let segment = without_mark bytes in
    let key = trim_ascii (take (key_end segment) segment) in
    let (e, parsed) = parse_segment-Parsed tables dk bytes s h in
    let (full, printable, whole, looks, split) = parsed in
    rw (e, printable) (key_matches-full_key dk cs key full s.callsign s.vintage whole split)
