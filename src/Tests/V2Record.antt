-- ===== src/Tests/V2Record.antt =====
-- Decoded records.
use callbook_rs.V2Record.Text.{is_padding}
use callbook_rs.Prelude.Trim.{trim, trim_end, trim_start}
use callbook_rs.Prelude.{
  All, Bytes, Option, [], codes, filter, filter_map, map, none, refl, some, ℕ, ◌++◌, ◌∷◌, ◌≡◌,
}
use callbook_rs.Prelude.Text.{concat}
use callbook_rs.Modern.Snapshot.{ham_call_dat_idx}
use callbook_rs.V2Record.Segment.{
  Tables, parse_segment, parse_snapshots, parse_matching_snapshots,
  parse_complete_matching_snapshots,
}
use callbook_rs.V2Record.Cut.{cut}
use callbook_rs.V2Record.Laws.{
  has_callsign, parse_snapshots-cut, parse_matching_snapshots-parse_snapshots,
}
use callbook_rs.V2Record.Keys.{IsKeyed, parse_snapshots-IsKeyed}

abbrev tables : Tables
tables = record { source = ham_call_dat_idx; countries = none; interests = none }

abbrev default_key : Option Bytes
default_key = some (codes "K1ABC")

-- The default call of 2015, another call, and a record that ends early.
abbrev window : Bytes
window =
    codes ":2015"
    ++ (0xb8 ∷ codes "JANE")
    ++ (0xb5 ∷ codes "W2X")
    ++ (0xb8 ∷ codes "JOE")
    ++ (0xb5 ∷ codes "K1A")

abbrev more : Bytes
more = codes "BC" ++ (0xbf ∷ codes "TOWN") ++ (0xb5 ∷ codes "k1")

abbrev decoded : Bytes
decoded = window ++ more

calls :
    map {B = Bytes × Option ℕ × Option Bytes}
      (λ s. (s.callsign, s.vintage, s.first_name))
      (parse_snapshots tables default_key decoded)
    ≡ (codes "K1ABC", some 2015, some (codes "JANE"))
      ∷ (codes "W2X", none, some (codes "JOE"))
      ∷ (codes "K1ABC", none, none)
      ∷ []
unfolding parse_snapshots trim trim_end trim_start is_padding
calls = refl

matching_calls :
    map {B = Option ℕ × Option Bytes}
      (λ s. (s.vintage, s.city))
      (parse_matching_snapshots tables default_key (codes "k1abc") decoded)
    ≡ (some 2015, none) ∷ (none, some (codes "TOWN")) ∷ []
unfolding parse_matching_snapshots trim trim_end trim_start is_padding
matching_calls = refl

complete_calls :
    map
      (λ s. s.vintage)
      (parse_complete_matching_snapshots tables default_key (codes "K1ABC") window)
    ≡ some 2015 ∷ []
unfolding parse_complete_matching_snapshots trim trim_end trim_start is_padding
complete_calls = refl

parse_snapshots-cut_example :
    (parse_snapshots tables default_key decoded
      ≡ filter_map (parse_segment tables default_key) (cut decoded))
    × (concat (cut decoded) ≡ decoded)
parse_snapshots-cut_example = parse_snapshots-cut tables default_key decoded

parse_matching_snapshots-parse_snapshots_example :
    parse_matching_snapshots tables default_key (codes "k1abc") decoded
    ≡ filter (has_callsign (codes "k1abc")) (parse_snapshots tables default_key decoded)
parse_matching_snapshots-parse_snapshots_example =
    parse_matching_snapshots-parse_snapshots tables default_key (codes "k1abc") decoded

parse_snapshots-IsKeyed_example : All IsKeyed (parse_snapshots tables default_key decoded)
parse_snapshots-IsKeyed_example = parse_snapshots-IsKeyed tables default_key decoded
