-- ===== src/Tests/Interest.antt =====
-- The catalogue of interests.
use callbook_rs.Prelude.Trim.{trim, trim_end, trim_start}
use callbook_rs.Prelude.{Bytes, [], codes, map, refl, ◌++◌, ◌>>=◌, ◌∷◌, ◌≡◌}
use callbook_rs.Interest.{
  parse_interests, lookup_interest, code_key, resolve_raw, interest_codes_of,
}
use callbook_rs.Interest.Lookup.{last_with, lookup_interest-parse_interests}

abbrev catalog_text : Bytes
catalog_text =
    codes "---Bands"
    ++ (13 ∷ 10 ∷ codes "0010*160 meters")
    ++ (10 ∷ codes "nope")
    ++ (10 ∷ codes "002*bad")
    ++ (10 ∷ codes "0030*")
    ++ (10 ∷ codes " 0010*80 meters ")
    ++ (10 ∷ [])

resolved_bands :
    map {B = Bytes × Bytes}
      (λ r. (r.category, r.label))
      (resolve_raw (parse_interests catalog_text) (codes "00109999"))
    ≡ (codes "Bands", codes "80 meters") ∷ []
unfolding resolve_raw parse_interests trim trim_end trim_start
resolved_bands = refl

raw_codes : interest_codes_of (codes "00109999003") ≡ codes "0010" ∷ codes "9999" ∷ []
unfolding interest_codes_of
raw_codes = refl

lookup_interest-parse_interests_example :
    lookup_interest (parse_interests catalog_text) (codes "0010")
    ≡ (code_key (codes "0010") >>= λ key. last_with key (parse_interests catalog_text).definitions)
lookup_interest-parse_interests_example =
    lookup_interest-parse_interests catalog_text (codes "0010")
