-- ===== src/UsCsv.antt =====
-- crates/callbook/src/us_csv.rs: the current-US catalogue, from the rows on that the csv crate reads
-- out of the archive; a row it refuses is its error.
pub mod Catalog
use callbook_rs.Prelude.{
  Bool, Bytes, List, Option, [], any, codes, filter_map, get_elem?, if◌then◌else◌,
  is_ascii_whitespace, is_empty, is_some, map, map_option, none, not, some, then_some,
  to_ascii_uppercase, ℕ, ◌&&◌, ◌==◌, ◌>>=◌, ◌∷◌,
}
use callbook_rs.Prelude.Trim.{trim}
use callbook_rs.Prelude.Text.{str_trim, to_uppercase}
use callbook_rs.Prelude.Map.{insert, get}
use callbook_rs.Prelude.Order.{lt_bytes}
use callbook_rs.Error.{Result, ok, err}
use callbook_rs.Modern.Snapshot.{CallSnapshot, new, us_csv, united_states}

pub record UsCsvRecord : Type 0 where
  pub callsign : Bytes
  pub class : Bytes
  pub name : Bytes
  pub address : Bytes
  pub city : Bytes
  pub state : Bytes
  pub zip : Bytes
  pub county : Bytes
  pub license_issue_date : Bytes
  pub fcc_transaction_type : Bytes

pub record UsCsvFile : Type 0 where
  pub records : List (Bytes × UsCsvRecord)
  pub callsigns : List Bytes

abbrev pub unwrap_or_default : Option Bytes → Bytes
unwrap_or_default none = []
unwrap_or_default (some s) = s

-- `field`, with the standard library's `String::from_utf8_lossy` as an argument.
unfoldable pub field : (Bytes → Bytes) → List Bytes → ℕ → Bytes
unfolding is_ascii_whitespace
field from_utf8_lossy row index =
    unwrap_or_default
      (map_option from_utf8_lossy (map_option (trim is_ascii_whitespace) (get_elem? row index)))

abbrev pub record_of : (Bytes → Bytes) → List Bytes → UsCsvRecord
record_of from_utf8_lossy row = record {
  callsign = field from_utf8_lossy row 0;
  class = field from_utf8_lossy row 1;
  name = field from_utf8_lossy row 2;
  address = field from_utf8_lossy row 3;
  city = field from_utf8_lossy row 4;
  state = field from_utf8_lossy row 5;
  zip = field from_utf8_lossy row 6;
  county = field from_utf8_lossy row 7;
  license_issue_date = field from_utf8_lossy row 8;
  fcc_transaction_type = field from_utf8_lossy row 9;
}

-- The body of the loop for a row that was read.
unfoldable pub insert_row :
    (Bytes → Bytes) → List Bytes → List (Bytes × UsCsvRecord) → List (Bytes × UsCsvRecord)
unfolding field insert to_ascii_uppercase
insert_row from_utf8_lossy row records =
    let callsign = field from_utf8_lossy row 0 in
    if is_empty callsign
    then records
    else insert (to_uppercase callsign) (record_of from_utf8_lossy row) records

-- The loop of `read_csv`; the first row that is an error ends it.
unfoldable pub read_rows :
    (Bytes → Bytes)
    → List (Result (List Bytes))
    → List (Bytes × UsCsvRecord)
    → Result (List (Bytes × UsCsvRecord))
unfolding insert_row
read_rows from_utf8_lossy [] records = ok records
read_rows from_utf8_lossy (err e ∷ rows) records = err e
read_rows from_utf8_lossy (ok row ∷ rows) records =
    read_rows from_utf8_lossy rows (insert_row from_utf8_lossy row records)

abbrev pub keys : List (Bytes × UsCsvRecord) → List Bytes
keys records = map (λ r. r.0) records

unfoldable pub insert_call : Bytes → List Bytes → List Bytes
unfolding lt_bytes
insert_call call [] = call ∷ []
insert_call call (c ∷ calls) =
    let rest = insert_call call calls in if lt_bytes c call then c ∷ rest else call ∷ c ∷ calls

-- `sort` on texts.
unfoldable pub sort_calls : List Bytes → List Bytes
unfolding insert_call
sort_calls [] = []
sort_calls (call ∷ calls) = insert_call call (sort_calls calls)

abbrev pub catalog_of : Result (List (Bytes × UsCsvRecord)) → Result UsCsvFile
catalog_of (err e) = err e
catalog_of (ok records) = ok (record { records = records; callsigns = sort_calls (keys records) })

-- `open`, on the rows of `usa.csv`.
unfoldable pub open_csv : (Bytes → Bytes) → List (Result (List Bytes)) → Result UsCsvFile
unfolding read_rows sort_calls
open_csv from_utf8_lossy rows = catalog_of (read_rows from_utf8_lossy rows [])

unfoldable pub normalized_lookup_key : Bytes → Option Bytes
unfolding str_trim to_ascii_uppercase
normalized_lookup_key callsign =
    let target = to_uppercase (str_trim callsign) in
    then_some (not (is_empty target) && not (any (λ b. b == b':') target)) target

-- `get`, and with a copy `lookup`.
unfoldable pub get_record : UsCsvFile → Bytes → Option UsCsvRecord
unfolding normalized_lookup_key get
get_record file callsign = normalized_lookup_key callsign >>= λ target. get target file.records

unfoldable pub contains_callsign : UsCsvFile → Bytes → Bool
unfolding get_record
contains_callsign file callsign = is_some (get_record file callsign)

unfoldable pub catalog_records : UsCsvFile → List UsCsvRecord
unfolding get
catalog_records file = filter_map (λ callsign. get callsign file.records) file.callsigns

-- `non_empty_ref` of modern.rs.
unfoldable pub non_empty_ref : Bytes → Option Bytes
unfolding str_trim
non_empty_ref value = let trimmed = str_trim value in then_some (not (is_empty trimmed)) trimmed

-- `CallSnapshot::from_us_csv`.
unfoldable pub from_us_csv : UsCsvRecord → CallSnapshot
unfolding non_empty_ref
from_us_csv r = record (new r.callsign none us_csv) {
  jurisdiction = united_states;
  license_class = non_empty_ref r.class;
  last_name = non_empty_ref r.name;
  address = non_empty_ref r.address;
  city = non_empty_ref r.city;
  state_or_province = non_empty_ref r.state;
  postal_code = non_empty_ref r.zip;
  county = non_empty_ref r.county;
  country = some (codes "United States");
  first_issued = non_empty_ref r.license_issue_date;
  fcc_transaction_type = non_empty_ref r.fcc_transaction_type;
}
