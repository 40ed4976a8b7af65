-- ===== src/Tests/Country.antt =====
-- Country rules.
use callbook_rs.Prelude.Trim.{trim, trim_end, trim_start}
use callbook_rs.Prelude.Order.{lt_bytes}
use callbook_rs.Prelude.{
  All, Bytes, List, Option, [], all, arith, bytes_eq, codes, ltb, map_option, none, refl, some,
  starts_with, true, unwrap_or, ℕ, ◌++◌, ◌∷◌, ◌≡◌,
}
use callbook_rs.Country.{CountryRule, build_first_byte_index, lookup_info, lookup_linear}
use callbook_rs.Country.Parse.{
  CountryInfo, CountryTable, countrys, parse_with_source, lookup_info_of, lookup_match,
  lookup_linear_match, to_match,
}
use callbook_rs.Country.Parse.Order.{IsBest}
use callbook_rs.Country.Parse.Found.{normalized, lookup_match-parse_with_source}
use callbook_rs.Country.Ranges.{IsAscii}
use callbook_rs.Country.Lookup.{RuleOk, first_match, lookup_info-lookup_linear}

abbrev rules : List (CountryRule ℕ)
rules =
    record { start = codes "S5"; end = codes "S5"; country = 1 }
    ∷ record { start = codes "K"; end = codes "N"; country = 2 }
    ∷ []

rules-RuleOk : All RuleOk rules
rules-RuleOk =
    let s5 : All IsAscii (codes "S5") = (omega arith, (omega arith, tt)) in
    let k : All IsAscii (codes "K") = (omega arith, tt) in
    let n : All IsAscii (codes "N") = (omega arith, tt) in
    (((s5, s5), refl, refl), (((k, n), refl, refl), tt))

n0c-IsAscii : All IsAscii (codes "N0C")
n0c-IsAscii = (omega arith, (omega arith, (omega arith, tt)))

lookup_n0c : lookup_linear (codes "N0C") rules ≡ some (some 2)
unfolding lookup_linear bytes_eq starts_with lt_bytes
lookup_n0c = refl

abbrev range_rules : List (CountryRule ℕ)
range_rules = record { start = codes "AA"; end = codes "AL"; country = 3 } ∷ []

-- The callsign is one letter of three bytes, and the slice of width 2 ends inside it: a panic.
lookup_panics : lookup_linear (0xe6 ∷ 0x97 ∷ 0xa5 ∷ []) range_rules ≡ none
unfolding lookup_linear bytes_eq
lookup_panics = refl

abbrev accented_rules : List (CountryRule ℕ)
accented_rules = record { start = 0xc3 ∷ 0x89 ∷ []; end = 0xc3 ∷ 0x89 ∷ []; country = 4 } ∷ []

-- A rule whose prefix starts with a byte above 127 is out of the range of the index: a panic.
build_panics : build_first_byte_index accented_rules ≡ none
unfolding build_first_byte_index
build_panics = refl

lookup_info-lookup_linear_example :
    (index : List (List ℕ)) × (build_first_byte_index rules ≡ some index)
    × (lookup_info rules index (codes "N0C") ≡ some (first_match (codes "N0C") rules))
    × (lookup_linear (codes "N0C") rules ≡ some (first_match (codes "N0C") rules))
lookup_info-lookup_linear_example =
    lookup_info-lookup_linear rules (codes "N0C") rules-RuleOk n0c-IsAscii

-- Lines of the file; the coordinates are kept as texts.
abbrev country_text : Bytes
country_text =
    codes "K     N     UNITED STATES [US] !08@05#NA$39.5"
    ++ (10 ∷ codes "# comment")
    ++ (10 ∷ codes "KH6   KH7ZZ HAWAII - USA [US] !61@31#OC^110" ++ (13 ∷ 10 ∷ []))

abbrev countries : CountryTable Bytes
countries =
    unwrap_or (parse_with_source some country_text countrys)
      (record { rules = []; first_byte_index = [] })

hawaii :
    map_option
      (map_option {B = Bytes × Bytes × Option ℕ × Option Bytes}
        (λ i. (i.name, i.cleaned_name, i.itu_zone, i.continent)))
      (lookup_info_of countries (codes " kh6xyz "))
    ≡ some (some (codes "HAWAII - USA", codes "HAWAII", some 61, some (codes "OC")))
unfolding lookup_info_of trim trim_end trim_start parse_with_source
hawaii = refl

text-IsAscii : (s : Bytes) → all (λ b. ltb b 128) s ≡ true → All IsAscii s
text-IsAscii [] h = tt
text-IsAscii (b ∷ bs) h = (ground (arith, h), text-IsAscii bs (ground (arith, h)))

lookup_match-parse_with_source_example :
    (table : CountryTable Bytes) × (found : Option (CountryInfo Bytes)) × (parse_with_source some
        country_text countrys
      ≡ some table)
    × (lookup_info_of table (codes "N0C") ≡ some found)
    × (lookup_match table (codes "N0C") ≡ some (map_option to_match found))
    × (lookup_linear_match table (codes "N0C") ≡ some (map_option to_match found))
    × IsBest (normalized (codes "N0C")) table.rules found
lookup_match-parse_with_source_example =
    lookup_match-parse_with_source some country_text countrys (codes "N0C")
      (text-IsAscii country_text refl) n0c-IsAscii
