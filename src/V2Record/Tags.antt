-- ===== src/V2Record/Tags.antt =====
-- What the tags of a record and the tables of countries and interests enter into a snapshot.
use callbook_rs.Prelude.{
  Bool, Bytes, Option, [], bytes_eq, codes, false, if◌then◌else◌, is_empty, is_some, leb, none,
  some, true, ℕ, ◌&&◌, ◌==◌, ◌>>=◌, ◌||◌, ◌∷◌,
}
use callbook_rs.Modern.Snapshot.{
  CallSnapshot, Jurisdiction, united_states, canada, international, unknown,
}
use callbook_rs.Modern.Tags.{insert}
use callbook_rs.Interest.{InterestTable, interest_codes_of, resolve_raw}
use callbook_rs.Country.Parse.{CountryMatch}
use callbook_rs.V2Record.Text.{is_tag, ends_value, clean_ascii}

-- The tags from 0xc8 on.
abbrev pub apply_late_tag : CallSnapshot → ℕ → Bytes → CallSnapshot
apply_late_tag snapshot tag value =
    if tag == 0xc8
    then record snapshot { latitude = some value }
    else if tag == 0xc9
    then record snapshot { longitude = some value }
    else if tag == 0xca
    then record snapshot { grid = some value }
    else if tag == 0xcb
    then record snapshot { area_code = some value }
    else if tag == 0xcc
    then record snapshot { previous_call = some value }
    else if tag == 0xcd
    then record snapshot { previous_class = some value }
    else if tag == 0xce
    then record snapshot { fcc_transaction_type = some value }
    else if tag == 0xcf
    then record snapshot { email = some value }
    else if tag == 0xd0
    then record snapshot { qsl = some value }
    else if tag == 0xd1
    then record snapshot { country = some value }
    else if tag == 0xd2
    then record snapshot { url = some value }
    else if tag == 0xd4
    then record snapshot { fax_number = some value }
    else if tag == 0xd5
    then record snapshot { interest_codes_raw = some value }
    else if tag == 0xd7
    then record snapshot { license_id = some value }
    else if tag == 0xd9
    then record snapshot { frn = some value }
    else if tag == 0xda
    then record snapshot { iota = some value }
    else if tag == 0xde
    then record snapshot { numeric_id = some value }
    else record snapshot {
      raw_tags = insert (record { tag = tag; value = value }) snapshot.raw_tags;
    }

-- `apply_tag`; its match, up to 0xc7 and from there on.
unfoldable pub apply_tag : CallSnapshot → ℕ → Bytes → CallSnapshot
unfolding insert
apply_tag snapshot tag value =
    if tag == 0xb6
    then record snapshot { license_class = some value }
    else if tag == 0xb7
    then record snapshot { record_code = some value }
    else if tag == 0xb8
    then record snapshot { first_name = some value }
    else if tag == 0xb9
    then record snapshot { middle_name = some value }
    else if tag == 0xba
    then record snapshot { last_name = some value }
    else if tag == 0xbb
    then record snapshot { suffix = some value }
    else if leb 0xbc tag && leb tag 0xbe
    then record snapshot { address = some value }
    else if tag == 0xbf
    then record snapshot { city = some value }
    else if tag == 0xc0
    then record snapshot { state_or_province = some value }
    else if tag == 0xc1
    then record snapshot { postal_code = some value }
    else if tag == 0xc2
    then record snapshot { birth_date = some value }
    else if tag == 0xc3
    then record snapshot { first_issued = some value }
    else if tag == 0xc4
    then record snapshot { expires = some value }
    else if tag == 0xc5
    then record snapshot { last_changed = some value }
    else if tag == 0xc6
    then record snapshot { county = some value }
    else if tag == 0xc7
    then record snapshot { gmt_offset = some value }
    else apply_late_tag snapshot tag value

abbrev pub set_match : CallSnapshot → CountryMatch → CallSnapshot
set_match snapshot found = record snapshot {
  country = some found.name;
  jurisdiction = found.jurisdiction;
}

-- `countries.and_then(|table| table.lookup(&snapshot.callsign))`, where no country is set.
abbrev pub lookup_country :
    Option (Bytes → Option CountryMatch) → CallSnapshot → Option CountryMatch
lookup_country countries snapshot =
    if is_some snapshot.country then none else countries >>= λ lookup. lookup snapshot.callsign

abbrev pub is_unknown : Jurisdiction → Bool
is_unknown unknown = true
is_unknown united_states = false
is_unknown canada = false
is_unknown international = false

unfoldable pub infer_jurisdiction : Option Bytes → Bool → Bool → Jurisdiction
unfolding bytes_eq
infer_jurisdiction (some country) has_state has_zip =
    if bytes_eq country (codes "United States") || bytes_eq country (codes "UNITED STATES")
    then united_states
    else if bytes_eq country (codes "Canada") || bytes_eq country (codes "CANADA")
    then canada
    else international
infer_jurisdiction none has_state has_zip = if has_state && has_zip then united_states else unknown

abbrev pub set_jurisdiction : CallSnapshot → CallSnapshot
set_jurisdiction snapshot =
    if is_unknown snapshot.jurisdiction
    then record snapshot {
      jurisdiction =
          infer_jurisdiction snapshot.country (is_some snapshot.state_or_province)
            (is_some snapshot.postal_code);
    }
    else snapshot

abbrev pub enter_country : CallSnapshot → Option CountryMatch → CallSnapshot
enter_country snapshot none = set_jurisdiction snapshot
enter_country snapshot (some found) = set_match snapshot found

unfoldable pub apply_country : CallSnapshot → Option (Bytes → Option CountryMatch) → CallSnapshot
unfolding infer_jurisdiction
apply_country snapshot countries = enter_country snapshot (lookup_country countries snapshot)

abbrev pub resolve_with : Option InterestTable → Bytes → CallSnapshot → CallSnapshot
resolve_with none raw snapshot = snapshot
resolve_with (some table) raw snapshot = record snapshot { interests = resolve_raw table raw }

abbrev pub enter_interests : Option InterestTable → Option Bytes → CallSnapshot → CallSnapshot
enter_interests interests none snapshot = snapshot
enter_interests interests (some raw) snapshot =
    resolve_with interests raw (record snapshot { interest_codes = interest_codes_of raw })

unfoldable pub apply_interests : CallSnapshot → Option InterestTable → CallSnapshot
unfolding interest_codes_of resolve_raw
apply_interests snapshot interests = enter_interests interests snapshot.interest_codes_raw snapshot

-- The bytes up to the next tag or mark.
unfoldable pub value_bytes : Bytes → Bytes
value_bytes [] = []
value_bytes (b ∷ rest) = let more = value_bytes rest in if ends_value b then [] else b ∷ more

abbrev pub apply_value : CallSnapshot → ℕ → Option Bytes → CallSnapshot
apply_value snapshot tag none = snapshot
apply_value snapshot tag (some value) =
    if is_empty value then snapshot else apply_tag snapshot tag value

-- The loop of `parse_segment`. The code goes on behind the value; here the bytes of the value, of
-- which none is a tag, are passed over one by one.
unfoldable pub tag_loop : CallSnapshot → Bytes → CallSnapshot
unfolding clean_ascii apply_tag value_bytes
tag_loop snapshot [] = snapshot
tag_loop snapshot (tag ∷ rest) =
    let passed = tag_loop snapshot rest in
    let applied = tag_loop (apply_value snapshot tag (clean_ascii (value_bytes rest))) rest in
    if is_tag tag then applied else passed
