-- ===== src/Modern/Snapshot.antt =====
-- The data of modern.rs.
use callbook_rs.Prelude.{ℕ, Bytes, List, [], ◌∷◌, Option, none}

pub data LookupStatus : Type 0 where
  current archive_only not_found : LookupStatus

-- In the derived order.
pub data SnapshotSource : Type 0 where
  us_csv ham_call_dat_idx ham_call_hci : SnapshotSource

pub data Jurisdiction : Type 0 where
  united_states canada international unknown : Jurisdiction

pub record ResolvedInterest : Type 0 where
  pub code : Bytes
  pub category : Bytes
  pub label : Bytes

-- An entry of `raw_tags`, a `BTreeMap<u8, String>`: the map is the list of its entries by
-- increasing tag.
pub record Tag : Type 0 where
  pub tag : ℕ
  pub value : Bytes

pub record CallSnapshot : Type 0 where
  pub callsign : Bytes
  pub vintage : Option ℕ
  pub sources : List SnapshotSource
  pub jurisdiction : Jurisdiction
  pub license_class : Option Bytes
  pub record_code : Option Bytes
  pub first_name : Option Bytes
  pub middle_name : Option Bytes
  pub last_name : Option Bytes
  pub suffix : Option Bytes
  pub address : Option Bytes
  pub city : Option Bytes
  pub state_or_province : Option Bytes
  pub postal_code : Option Bytes
  pub county : Option Bytes
  pub country : Option Bytes
  pub birth_date : Option Bytes
  pub first_issued : Option Bytes
  pub expires : Option Bytes
  pub last_changed : Option Bytes
  pub gmt_offset : Option Bytes
  pub latitude : Option Bytes
  pub longitude : Option Bytes
  pub grid : Option Bytes
  pub area_code : Option Bytes
  pub previous_call : Option Bytes
  pub previous_class : Option Bytes
  pub fcc_transaction_type : Option Bytes
  pub email : Option Bytes
  pub qsl : Option Bytes
  pub url : Option Bytes
  pub fax_number : Option Bytes
  pub iota : Option Bytes
  pub interest_codes_raw : Option Bytes
  pub interest_codes : List Bytes
  pub interests : List ResolvedInterest
  pub license_id : Option Bytes
  pub frn : Option Bytes
  pub numeric_id : Option Bytes
  pub raw_tags : List Tag

pub record LookupResult : Type 0 where
  pub query : Bytes
  pub status : LookupStatus
  pub current : Option CallSnapshot
  pub history : List CallSnapshot

-- `LookupResult::not_found`.
abbrev pub not_found_result : Bytes → LookupResult
not_found_result query = record { query = query; status = not_found; current = none; history = [] }

-- `CallSnapshot::new`.
abbrev pub new : Bytes → Option ℕ → SnapshotSource → CallSnapshot
new callsign vintage source = record {
  callsign = callsign;
  vintage = vintage;
  sources = source ∷ [];
  jurisdiction = unknown;
  license_class = none;
  record_code = none;
  first_name = none;
  middle_name = none;
  last_name = none;
  suffix = none;
  address = none;
  city = none;
  state_or_province = none;
  postal_code = none;
  county = none;
  country = none;
  birth_date = none;
  first_issued = none;
  expires = none;
  last_changed = none;
  gmt_offset = none;
  latitude = none;
  longitude = none;
  grid = none;
  area_code = none;
  previous_call = none;
  previous_class = none;
  fcc_transaction_type = none;
  email = none;
  qsl = none;
  url = none;
  fax_number = none;
  iota = none;
  interest_codes_raw = none;
  interest_codes = [];
  interests = [];
  license_id = none;
  frn = none;
  numeric_id = none;
  raw_tags = [];
}
