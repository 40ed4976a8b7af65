-- ===== src/Country/Parse.antt =====
-- The parser of crates/callbook/src/country.rs, and the lookups by callsign.
pub mod Order
pub mod Found
use callbook_rs.Prelude.{
  Bool, Bytes, List, Option, [], any, bytes_eq, codes, drop, false, filter_map, if◌then◌else◌,
  is_empty, leb, length, ltb, map_option, min, none, not, slice, some, starts_with, take, then_some,
  to_ascii_uppercase, unwrap_or, ℕ, ◌&&◌, ◌+◌, ◌==◌, ◌>>=◌, ◌||◌, ◌∷◌,
}
use callbook_rs.Prelude.Text.{str_trim, str_lines, to_uppercase, find}
use callbook_rs.Prelude.Order.{lt_bytes}
use callbook_rs.Decimal.{parse_uint}
use callbook_rs.Modern.Snapshot.{Jurisdiction, united_states, canada, international}
use callbook_rs.Country.{
  CountryRule, is_char_boundary, build_first_byte_index, lookup_info, lookup_linear,
}

pub record CountryMatch : Type 0 where
  pub name : Bytes
  pub code : Option Bytes
  pub jurisdiction : Jurisdiction

pub data CountryInfoSource : Type 0 where
  unknown_source countrys gc_mcountrys countrys_pc : CountryInfoSource

-- `F64` is the type `f64`.
pub record CountryInfo (F64 : Type 0) : Type 0 where
  pub name : Bytes
  pub raw_name : Bytes
  pub cleaned_name : Bytes
  pub code : Option Bytes
  pub jurisdiction : Jurisdiction
  pub itu_zone : Option ℕ
  pub cq_zone : Option ℕ
  pub continent : Option Bytes
  pub latitude : Option F64
  pub longitude : Option F64
  pub numeric_code : Option ℕ
  pub source : CountryInfoSource

pub record CountryTable (F64 : Type 0) : Type 0 where
  pub rules : List (CountryRule (CountryInfo F64))
  pub first_byte_index : List (List ℕ)

-- `line.get(start..end)`.
unfoldable pub get_range : Bytes → ℕ → ℕ → Option Bytes
get_range s start end =
    then_some
      (leb end (length s) && leb start end && is_char_boundary s start && is_char_boundary s end)
      (slice s start end)

-- The smaller of two positions, if there are any.
abbrev pub min_option : Option ℕ → Option ℕ → Option ℕ
min_option none b = b
min_option (some a) none = some a
min_option (some a) (some b) = some (min a b)

-- The first of these characters.
unfoldable pub find_first : Bytes → Bytes → Option ℕ
unfolding find
find_first text [] = none
find_first text (tag ∷ tags) = min_option (find text (tag ∷ [])) (find_first text tags)

-- `split(separators).next()`.
unfoldable pub before_any : Bytes → Bytes → Bytes
before_any separators [] = []
before_any separators (b ∷ bs) =
    let rest = before_any separators bs in if any (λ s. b == s) separators then [] else b ∷ rest

abbrev pub non_empty : Bytes → Option Bytes
non_empty value = then_some (not (is_empty value)) value

unfoldable pub clean_country_label : Bytes → Bytes
unfolding find str_trim
clean_country_label label =
    str_trim (take (unwrap_or (find label (codes " - ")) (length label)) label)

unfoldable pub parse_tag_string : Bytes → ℕ → Option Bytes
unfolding find before_any str_trim
parse_tag_string text tag = do
  start ← find text (tag ∷ [])
  non_empty (str_trim (before_any (codes "!@#$%^&") (drop (start + 1) text)))

unfoldable pub parse_tag_u16 : Bytes → ℕ → Option ℕ
unfolding parse_tag_string parse_uint
parse_tag_u16 text tag = parse_tag_string text tag >>= parse_uint 16

abbrev pub is_code : Bytes → Option Bytes → Bool
is_code expected none = false
is_code expected (some code) = bytes_eq code expected

unfoldable pub classify : Bytes → Option Bytes → Jurisdiction
unfolding bytes_eq
classify name code =
    if is_code (codes "US") code || bytes_eq name (codes "UNITED STATES")
    then united_states
    else if is_code (codes "CA") code || bytes_eq name (codes "CANADA")
    then canada
    else international

-- The code between the brackets.
abbrev pub bracketed : Bytes → ℕ → Option Bytes
bracketed rest start =
    let after = drop (start + 2) rest in
    find after (codes "]") >>= λ end. non_empty (str_trim (take end after))

abbrev pub to_match : {F64 : Type 0} → CountryInfo F64 → CountryMatch
to_match info = record { name = info.name; code = info.code; jurisdiction = info.jurisdiction }

-- `line.get(..).unwrap_or("").trim()`.
abbrev pub field_at : Bytes → ℕ → ℕ → Bytes
field_at line start end = str_trim (unwrap_or (get_range line start end) [])

abbrev pub rule_of :
    {F64 : Type 0} → Bytes → Bytes → CountryInfo F64 → Option (CountryRule (CountryInfo F64))
rule_of start end parsed =
    if is_empty parsed.name
    then none
    else some (record { start = to_uppercase start; end = to_uppercase end; country = parsed })

-- `str::parse::<f64>`.
module _ {F64 : Type 0} (parse_f64 : Bytes → Option F64) where
  unfoldable pub parse_tag_f64 : Bytes → ℕ → Option F64
  unfolding parse_tag_string
  parse_tag_f64 text tag = parse_tag_string text tag >>= parse_f64

  unfoldable pub parse_country_info : Bytes → CountryInfoSource → CountryInfo F64
  unfolding find_first clean_country_label classify parse_tag_string parse_tag_u16 parse_tag_f64
  parse_country_info rest source =
      let tag_start = find rest (codes " [") in
      let metadata_start = find_first rest (codes "!@#$%^") in
      let name_end = unwrap_or (min_option tag_start metadata_start) (length rest) in
      let raw_name = str_trim (take name_end rest) in
      let code = tag_start >>= bracketed rest in
      record {
        name = raw_name;
        raw_name = raw_name;
        cleaned_name = clean_country_label raw_name;
        code = code;
        jurisdiction = classify raw_name code;
        itu_zone = parse_tag_u16 rest b'!';
        cq_zone = parse_tag_u16 rest b'@';
        continent = parse_tag_string rest b'#';
        latitude = parse_tag_f64 rest b'$';
        longitude = parse_tag_f64 rest b'%';
        numeric_code = parse_tag_u16 rest b'^';
        source = source;
      }

  -- The body of the loop of `parse_with_source`; `none` is its `continue`.
  unfoldable pub parse_rule : CountryInfoSource → Bytes → Option (CountryRule (CountryInfo F64))
  unfolding parse_country_info get_range to_ascii_uppercase
  parse_rule source line =
      let start = field_at line 0 6 in
      let end = field_at line 6 12 in
      let parsed = parse_country_info (field_at line 12 (length line)) source in
      if starts_with line (codes "#") || is_empty (str_trim line) || ltb (length line) 12
      then none
      else if is_empty start || is_empty end
      then none
      else rule_of start end parsed

-- The order of `sort_by`: long starts first, then by the start.
abbrev pub comes_before {ℓ} : {Info : Type ℓ} → CountryRule Info → CountryRule Info → Bool
comes_before a b =
    ltb (length b.start) (length a.start)
    || (length b.start == length a.start && lt_bytes a.start b.start)

unfoldable pub insert_rule {ℓ} :
    {Info : Type ℓ} → CountryRule Info → List (CountryRule Info) → List (CountryRule Info)
unfolding lt_bytes
insert_rule rule [] = rule ∷ []
insert_rule rule (r ∷ rules) =
    let rest = insert_rule rule rules in if comes_before r rule then r ∷ rest else rule ∷ r ∷ rules

-- A stable sort.
unfoldable pub sort_rules {ℓ} : {Info : Type ℓ} → List (CountryRule Info) → List (CountryRule Info)
unfolding insert_rule
sort_rules [] = []
sort_rules (rule ∷ rules) = insert_rule rule (sort_rules rules)

-- `parse_with_source`; building the index may panic.
unfoldable pub parse_with_source :
    {F64 : Type 0} → (Bytes → Option F64) → Bytes → CountryInfoSource → Option (CountryTable F64)
unfolding parse_rule sort_rules build_first_byte_index str_lines
parse_with_source parse_f64 text source =
    let rules = sort_rules (filter_map (parse_rule parse_f64 source) (str_lines text)) in
    map_option (λ index. record { rules = rules; first_byte_index = index })
      (build_first_byte_index rules)

-- `CountryTable::lookup_info`, `lookup` and `lookup_linear`, where `none` is a panic.
unfoldable pub lookup_info_of :
    {F64 : Type 0} → CountryTable F64 → Bytes → Option (Option (CountryInfo F64))
unfolding lookup_info to_ascii_uppercase str_trim
lookup_info_of table callsign =
    lookup_info table.rules table.first_byte_index (to_uppercase (str_trim callsign))

unfoldable pub lookup_match :
    {F64 : Type 0} → CountryTable F64 → Bytes → Option (Option CountryMatch)
unfolding lookup_info_of
lookup_match table callsign = map_option (map_option to_match) (lookup_info_of table callsign)

unfoldable pub lookup_linear_match :
    {F64 : Type 0} → CountryTable F64 → Bytes → Option (Option CountryMatch)
unfolding lookup_linear to_ascii_uppercase str_trim
lookup_linear_match table callsign =
    map_option (map_option to_match) (lookup_linear (to_uppercase (str_trim callsign)) table.rules)
