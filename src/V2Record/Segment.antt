-- ===== src/V2Record/Segment.antt =====
-- `parse_segment`, `segment_matches` and the loops over the segments.
use callbook_rs.Prelude.{
  Bool, Bytes, List, Option, [], all, codes, cons_some, drop, false, if◌then◌else◌, is_empty,
  is_some, length, map_option, none, not, position, some, starts_with, suc, take, then_some,
  unwrap_or, zero, ℕ, ◌&&◌, ◌++◌, ◌+◌, ◌==◌, ◌>>=◌, ◌||◌, ◌∷◌,
}
use callbook_rs.Prelude.Text.{head_before, strip_prefix}
use callbook_rs.Modern.Snapshot.{CallSnapshot, SnapshotSource, new}
use callbook_rs.Interest.{InterestTable}
use callbook_rs.Country.Parse.{CountryMatch}
use callbook_rs.V2Record.Text.{
  is_tag, is_printable, trim_ascii, clean_ascii, looks_like_key, split_key, ascii_eq_ignore_case,
}
use callbook_rs.V2Record.Tags.{tag_loop, apply_country, apply_interests}

-- The segment without the mark in front.
abbrev pub without_mark : Bytes → Bytes
without_mark [] = []
without_mark (b ∷ rest) = if b == 0xb5 then rest else b ∷ rest

-- `key_end`.
abbrev pub key_end : Bytes → ℕ
key_end segment = unwrap_or (position is_tag segment) (length segment)

-- The key with the call of the default key in front, if it is a year only.
unfoldable pub full_key : Option Bytes → Bytes → Option Bytes
unfolding starts_with clean_ascii head_before
full_key default_key key =
    if starts_with key (codes ":")
    then (default_key >>= clean_ascii >>= λ default. some (head_before b':' default ++ key))
    else some key

abbrev pub checked_key : Bytes → Option Bytes
checked_key key = then_some (looks_like_key key) key

-- The arguments that the functions pass on; the table of countries is its function `lookup`.
pub record Tables : Type 0 where
  pub source : SnapshotSource
  pub countries : Option (Bytes → Option CountryMatch)
  pub interests : Option InterestTable

-- What is parsed behind the key.
abbrev pub fill_snapshot : Tables → Bytes → Bytes × Option ℕ → CallSnapshot
fill_snapshot tables fields (callsign, vintage) =
    apply_interests
      (apply_country (tag_loop (new callsign vintage tables.source) fields) tables.countries)
      tables.interests

-- The callsign and the vintage of the key.
abbrev pub parse_key : Option Bytes → Bytes → Option (Bytes × Option ℕ)
parse_key default_key head = clean_ascii head >>= full_key default_key >>= checked_key >>= split_key

unfoldable pub parse_segment : Tables → Option Bytes → Bytes → Option CallSnapshot
unfolding full_key looks_like_key split_key tag_loop apply_country apply_interests
parse_segment tables default_key bytes =
    let segment = without_mark bytes in
    let end = key_end segment in
    if is_empty segment
    then none
    else map_option (fill_snapshot tables (drop end segment))
        (parse_key default_key (take end segment))

-- A key that is a year only: the call is that of the default key.
abbrev pub year_matches : Option Bytes → Bytes → Bytes → Bool
year_matches none callsign rest = false
year_matches (some default) callsign rest =
    not (is_empty rest) && ascii_eq_ignore_case (head_before b':' (trim_ascii default)) callsign

abbrev pub rest_matches : Option Bytes → Bytes → Bytes → Option Bytes → Bool
rest_matches default_key callsign key none = ascii_eq_ignore_case (head_before b':' key) callsign
rest_matches default_key callsign key (some rest) = year_matches default_key callsign rest

abbrev pub key_matches : Option Bytes → Bytes → Bytes → Bool
key_matches default_key callsign key =
    rest_matches default_key callsign key (strip_prefix key (codes ":"))

unfoldable pub segment_matches : Option Bytes → Bytes → Bytes → Bool
unfolding trim_ascii is_printable strip_prefix head_before ascii_eq_ignore_case
segment_matches default_key callsign bytes =
    let segment = without_mark bytes in
    let key = trim_ascii (take (key_end segment) segment) in
    not (is_empty segment) && all is_printable key && key_matches default_key callsign key

-- The start of the search, behind a mark.
abbrev pub search_start : Bytes → ℕ
search_start [] = 0
search_start (b ∷ rest) = if b == 0xb5 then 1 else 0

abbrev pub is_mark : ℕ → Bool
is_mark b = b == 0xb5

-- Where the next record starts.
abbrev pub next_mark : Bytes → Option ℕ
next_mark decoded =
    map_option (λ p. search_start decoded + p)
      (position is_mark (drop (search_start decoded) decoded))

-- The loop of `parse_snapshots` and `parse_matching_snapshots`; `visit` is its body, and the fuel
-- bounds its rounds.
unfoldable pub visit_segments : (Bytes → Option CallSnapshot) → ℕ → Bytes → List CallSnapshot
visit_segments visit zero decoded = []
visit_segments visit (suc fuel) decoded =
    let next = unwrap_or (next_mark decoded) (length decoded) in
    let rest = visit_segments visit fuel (drop next decoded) in
    if is_empty decoded then [] else cons_some (visit (take next decoded)) rest

-- The loop of `parse_complete_matching_snapshots`, which breaks at the last segment.
unfoldable pub visit_complete : (Bytes → Option CallSnapshot) → ℕ → Bytes → List CallSnapshot
visit_complete visit zero decoded = []
visit_complete visit (suc fuel) decoded =
    let next = unwrap_or (next_mark decoded) (length decoded) in
    let rest = visit_complete visit fuel (drop next decoded) in
    if is_empty decoded || not (is_some (next_mark decoded))
    then []
    else cons_some (visit (take next decoded)) rest

-- The body of the two loops that look for a callsign.
abbrev pub matching_segment : Tables → Option Bytes → Bytes → Bytes → Option CallSnapshot
matching_segment tables default_key callsign segment =
    if segment_matches default_key callsign segment
    then parse_segment tables default_key segment
    else none

unfoldable pub parse_snapshots : Tables → Option Bytes → Bytes → List CallSnapshot
unfolding visit_segments parse_segment
parse_snapshots tables default_key decoded =
    visit_segments (parse_segment tables default_key) (length decoded) decoded

unfoldable pub parse_matching_snapshots : Tables → Option Bytes → Bytes → Bytes → List CallSnapshot
unfolding visit_segments parse_segment segment_matches
parse_matching_snapshots tables default_key callsign decoded =
    visit_segments (matching_segment tables default_key callsign) (length decoded) decoded

unfoldable pub parse_complete_matching_snapshots :
    Tables → Option Bytes → Bytes → Bytes → List CallSnapshot
unfolding visit_complete parse_segment segment_matches
parse_complete_matching_snapshots tables default_key callsign decoded =
    visit_complete (matching_segment tables default_key callsign) (length decoded) decoded
