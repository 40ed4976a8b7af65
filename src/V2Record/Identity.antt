-- ===== src/V2Record/Identity.antt =====
-- What is parsed behind the key changes neither the callsign nor the vintage.
use callbook_rs.Prelude.{
  Bool-cases, Bytes, Option, [], arith, inl, inr, is_empty, none, refl, some, ℕ, ◌∙◌, ◌∷◌, ◌≡◌,
}
use callbook_rs.Modern.Snapshot.{CallSnapshot, new}
use callbook_rs.Interest.{InterestTable, interest_codes_of}
use callbook_rs.Country.Parse.{CountryMatch}
use callbook_rs.V2Record.Text.{is_tag, clean_ascii}
use callbook_rs.V2Record.Tags.{
  apply_tag, apply_value, tag_loop, value_bytes, apply_country, enter_country, lookup_country,
  apply_interests, enter_interests, resolve_with, is_unknown, apply_late_tag,
}
use callbook_rs.V2Record.Segment.{Tables, fill_snapshot}

-- The two snapshots are of the same record.
abbrev pub SameRecord : CallSnapshot → CallSnapshot → Type 0
SameRecord s t = (s.callsign ≡ t.callsign) × (s.vintage ≡ t.vintage) × (s.sources ≡ t.sources)

SameRecord-apply_late_tag :
    (s : CallSnapshot) (tag : ℕ) (value : Bytes) → SameRecord (apply_late_tag s tag value) s
SameRecord-apply_late_tag s tag value = ground arith

SameRecord-apply_tag :
    (s : CallSnapshot) (tag : ℕ) (value : Bytes) → SameRecord (apply_tag s tag value) s
unfolding apply_tag
SameRecord-apply_tag s tag value = ground (arith, SameRecord-apply_late_tag s tag value)

SameRecord-trans : (r s t : CallSnapshot) → SameRecord r s → SameRecord s t → SameRecord r t
SameRecord-trans r s t h k = (h.0 ∙ k.0, h.1 ∙ k.1, h.2 ∙ k.2)

SameRecord-apply_value :
    (s : CallSnapshot) (tag : ℕ) (value : Option Bytes) → SameRecord (apply_value s tag value) s
SameRecord-apply_value s tag none = (refl, refl, refl)
SameRecord-apply_value s tag (some value) = elim (Bool-cases (is_empty value)) [
  | inl e ↦ rw e (refl, refl, refl)
  | inr e ↦ rw e (SameRecord-apply_tag s tag value)
]

SameRecord-tag_loop : (s : CallSnapshot) (bytes : Bytes) → SameRecord (tag_loop s bytes) s
unfolding tag_loop
SameRecord-tag_loop s [] = (refl, refl, refl)
SameRecord-tag_loop s (tag ∷ rest) =
    let entered = apply_value s tag (clean_ascii (value_bytes rest)) in
    elim (Bool-cases (is_tag tag)) [
      | inl e ↦ rw e (
          SameRecord-trans (tag_loop entered rest) entered s (SameRecord-tag_loop entered rest)
            (SameRecord-apply_value s tag (clean_ascii (value_bytes rest))))
      | inr e ↦ rw e (SameRecord-tag_loop s rest)
    ]

SameRecord-enter_country :
    (s : CallSnapshot) (found : Option CountryMatch) → SameRecord (enter_country s found) s
SameRecord-enter_country s none = elim (Bool-cases (is_unknown s.jurisdiction)) [
  | inl e ↦ rw e (refl, refl, refl)
  | inr e ↦ rw e (refl, refl, refl)
]
SameRecord-enter_country s (some found) = (refl, refl, refl)

SameRecord-resolve_with :
    (s : CallSnapshot) (raw : Bytes) (t : Option InterestTable)
    → SameRecord (resolve_with t raw (record s { interest_codes = interest_codes_of raw })) s
SameRecord-resolve_with s raw none = (refl, refl, refl)
SameRecord-resolve_with s raw (some table) = (refl, refl, refl)

SameRecord-enter_interests :
    (s : CallSnapshot) (t : Option InterestTable) (raw : Option Bytes)
    → SameRecord (enter_interests t raw s) s
SameRecord-enter_interests s t none = (refl, refl, refl)
SameRecord-enter_interests s t (some raw) = SameRecord-resolve_with s raw t

pub SameRecord-fill_snapshot :
    (tables : Tables) (fields callsign : Bytes) (vintage : Option ℕ)
    → SameRecord
        (fill_snapshot tables fields (callsign, vintage))
        (new callsign vintage tables.source)
unfolding apply_country apply_interests
SameRecord-fill_snapshot tables fields callsign vintage =
    let start = new callsign vintage tables.source in
    let tagged = tag_loop start fields in
    let placed = apply_country tagged tables.countries in
    SameRecord-trans (apply_interests placed tables.interests) placed start
      (SameRecord-enter_interests placed tables.interests placed.interest_codes_raw)
      (SameRecord-trans placed tagged start
        (SameRecord-enter_country tagged (lookup_country tables.countries tagged))
        (SameRecord-tag_loop start fields))
