-- ===== src/Modern/Merge.antt =====
-- `CallSnapshot::merge_missing_from`, and `display_name`.
pub mod Sources
pub mod Union
use callbook_rs.Prelude.{
  Bool, Bytes, List, Option, [], any, if◌then◌else◌, is_empty, is_some, leb, none, not, some,
  then_some, ℕ, ◌&&◌, ◌++◌, ◌==◌, ◌||◌, ◌∷◌,
}
use callbook_rs.Modern.Snapshot.{
  Jurisdiction, SnapshotSource, CallSnapshot, us_csv, ham_call_dat_idx, ham_call_hci, unknown,
}
use callbook_rs.Modern.Tags.{extend}

-- The place of a source in the derived order, which is also its equality.
abbrev pub rank : SnapshotSource → ℕ
rank us_csv = 0
rank ham_call_dat_idx = 1
rank ham_call_hci = 2

unfoldable pub contains : List SnapshotSource → SnapshotSource → Bool
contains sources source = any (λ s. rank s == rank source) sources

-- The `for` loop over the sources of the other snapshot.
unfoldable pub push_missing : List SnapshotSource → List SnapshotSource → List SnapshotSource
unfolding contains
push_missing sources [] = sources
push_missing sources (source ∷ others) =
    if contains sources source
    then push_missing sources others
    else push_missing (sources ++ source ∷ []) others

unfoldable pub insert_source : SnapshotSource → List SnapshotSource → List SnapshotSource
insert_source source [] = source ∷ []
insert_source source (s ∷ sources) =
    let rest = insert_source source sources in
    if leb (rank source) (rank s) then source ∷ s ∷ sources else s ∷ rest

-- `sort_unstable`: equal sources are the same value, so every sort gives this list.
unfoldable pub sort_sources : List SnapshotSource → List SnapshotSource
unfolding insert_source
sort_sources [] = []
sort_sources (s ∷ sources) = insert_source s (sort_sources sources)

-- A missing or empty value is overwritten, by a missing value too.
unfoldable pub fill : Option Bytes → Option Bytes → Option Bytes
fill none src = src
fill (some s) src = if is_empty s then src else some s

abbrev pub known_or : Jurisdiction → Jurisdiction → Jurisdiction
known_or unknown other = other
known_or self other = self

abbrev pub if_empty {ℓ} : {A : Type ℓ} → List A → List A → List A
if_empty [] others = others
if_empty (x ∷ xs) others = x ∷ xs

abbrev pub has_split_name : CallSnapshot → Bool
has_split_name other = is_some other.first_name || is_some other.middle_name

abbrev pub replace {ℓ} : {A : Type ℓ} → Option A → Option A → Option A
replace old none = old
replace old (some new) = some new

-- `first_name` is the first name after its own merge.
unfoldable pub merged_last_name : Option Bytes → Bool → Option Bytes → Option Bytes → Option Bytes
unfolding fill
merged_last_name first_name other_has_split_name self other =
    if other_has_split_name && is_some first_name then replace self other else fill self other

unfoldable pub merge_missing_from : CallSnapshot → CallSnapshot → CallSnapshot
unfolding push_missing sort_sources fill merged_last_name extend
merge_missing_from self other = record {
  callsign = self.callsign;
  vintage = self.vintage;
  sources = sort_sources (push_missing self.sources other.sources);
  jurisdiction = known_or self.jurisdiction other.jurisdiction;
  license_class = fill self.license_class other.license_class;
  record_code = fill self.record_code other.record_code;
  first_name = fill self.first_name other.first_name;
  middle_name = fill self.middle_name other.middle_name;
  last_name =
      merged_last_name (fill self.first_name other.first_name) (has_split_name other) self.last_name
        other.last_name;
  suffix = fill self.suffix other.suffix;
  address = fill self.address other.address;
  city = fill self.city other.city;
  state_or_province = fill self.state_or_province other.state_or_province;
  postal_code = fill self.postal_code other.postal_code;
  county = fill self.county other.county;
  country = fill self.country other.country;
  birth_date = fill self.birth_date other.birth_date;
  first_issued = fill self.first_issued other.first_issued;
  expires = fill self.expires other.expires;
  last_changed = fill self.last_changed other.last_changed;
  gmt_offset = fill self.gmt_offset other.gmt_offset;
  latitude = fill self.latitude other.latitude;
  longitude = fill self.longitude other.longitude;
  grid = fill self.grid other.grid;
  area_code = fill self.area_code other.area_code;
  previous_call = fill self.previous_call other.previous_call;
  previous_class = fill self.previous_class other.previous_class;
  fcc_transaction_type = fill self.fcc_transaction_type other.fcc_transaction_type;
  email = fill self.email other.email;
  qsl = fill self.qsl other.qsl;
  url = fill self.url other.url;
  fax_number = fill self.fax_number other.fax_number;
  iota = fill self.iota other.iota;
  interest_codes_raw = fill self.interest_codes_raw other.interest_codes_raw;
  interest_codes = if_empty self.interest_codes other.interest_codes;
  interests = if_empty self.interests other.interests;
  license_id = fill self.license_id other.license_id;
  frn = fill self.frn other.frn;
  numeric_id = fill self.numeric_id other.numeric_id;
  raw_tags = extend self.raw_tags other.raw_tags;
}

abbrev pub parts {ℓ} : {A : Type ℓ} → List (Option A) → List A
parts [] = []
parts (none ∷ os) = parts os
parts (some s ∷ os) = s ∷ parts os

-- `join(" ")`.
unfoldable pub join_space : List Bytes → Bytes
join_space [] = []
join_space (p ∷ []) = p
join_space (p ∷ q ∷ ps) = p ++ b' ' ∷ join_space (q ∷ ps)

unfoldable pub display_name : CallSnapshot → Option Bytes
unfolding join_space
display_name self =
    let name =
      join_space (parts (self.first_name ∷ self.middle_name ∷ self.last_name ∷ self.suffix ∷ [])) in
    if not (is_some self.first_name) && not (is_some self.middle_name)
    then self.last_name
    else then_some (not (is_empty name)) name
