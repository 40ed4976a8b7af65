-- ===== src/Country/Parse/Found.antt =====
-- Which country a callsign gets from an ASCII file.
use callbook_rs.Prelude.{All, Bytes, Option, ap, filter_map, map_option, some, ◌≡◌}
use callbook_rs.Prelude.Text.{str_trim, str_lines, to_uppercase}
use callbook_rs.Prelude.Text.All.{str_trim-All, str_lines-All}
use callbook_rs.Country.Ranges.{IsAscii}
use callbook_rs.Country.Lookup.{RuleOk, first_match, lookup_info-lookup_linear}
use callbook_rs.Country.Parse.{
  CountryInfo, CountryInfoSource, CountryTable, parse_rule, sort_rules, parse_with_source,
  lookup_info_of, lookup_match, lookup_linear_match, to_match,
}
use callbook_rs.Country.Parse.Order.{
  to_uppercase-IsAscii, parse_rules-RuleOk, sort_rules-All, sort_rules-LongestFirst, IsBest,
  first_match-IsBest,
}

-- The callsign that the lookups compare.
abbrev pub normalized : Bytes → Bytes
normalized callsign = to_uppercase (str_trim callsign)

-- An ASCII file is parsed without a panic, and the lookup of an ASCII callsign in the table, indexed
-- or linear, does not panic either: it finds a rule that the trimmed, upper-cased callsign matches,
-- where no rule before it matches and no rule behind it has a longer start, or finds no country when
-- no rule matches.
pub lookup_match-parse_with_source :
    {F64 : Type 0} (parse_f64 : Bytes → Option F64) (text : Bytes) (source : CountryInfoSource)
    (callsign : Bytes)
    → All IsAscii text
    → All IsAscii callsign
    → (table : CountryTable F64) × (found : Option (CountryInfo F64)) × (parse_with_source parse_f64
          text source
        ≡ some table)
      × (lookup_info_of table callsign ≡ some found)
      × (lookup_match table callsign ≡ some (map_option to_match found))
      × (lookup_linear_match table callsign ≡ some (map_option to_match found))
      × IsBest (normalized callsign) table.rules found
unfolding parse_with_source lookup_info_of lookup_match lookup_linear_match
lookup_match-parse_with_source parse_f64 text source callsign ascii call_ascii =
    let parsed = filter_map (parse_rule parse_f64 source) (str_lines text) in
    let rules = sort_rules parsed in
    let ok =
      sort_rules-All RuleOk parsed
        (parse_rules-RuleOk parse_f64 source (str_lines text) (str_lines-All IsAscii text ascii)) in
    let call = normalized callsign in
    let small =
      to_uppercase-IsAscii (str_trim callsign) (str_trim-All IsAscii callsign call_ascii) in
    let (index, built, indexed, linear) = lookup_info-lookup_linear rules call ok small in
    (
      record { rules = rules; first_byte_index = index },
      first_match call rules,
      ap (map_option (λ i. record { rules = rules; first_byte_index = i })) built,
      indexed,
      ap (map_option (map_option to_match)) indexed,
      ap (map_option (map_option to_match)) linear,
      first_match-IsBest call rules (sort_rules-LongestFirst parsed),
    )
