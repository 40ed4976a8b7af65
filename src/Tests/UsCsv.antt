-- ===== src/Tests/UsCsv.antt =====
-- The current-US catalogue.
use callbook_rs.Prelude.Trim.{trim, trim_end, trim_start}
use callbook_rs.Prelude.{
  Bytes, List, [], codes, false, map, map_option, refl, some, ◌++◌, ◌>>=◌, ◌∷◌, ◌≡◌,
}
use callbook_rs.Error.{Result, ok, err, csv}
use callbook_rs.UsCsv.{
  UsCsvFile, open_csv, get_record, normalized_lookup_key, catalog_records, contains_callsign,
}
use callbook_rs.UsCsv.Catalog.{last_row, get_record-open_csv, open_csv-err}

-- These rows are ASCII, on which the conversion is the identity.
abbrev lossy : Bytes → Bytes
lossy bytes = bytes

abbrev rows : List (List Bytes)
rows =
    (codes " K0ABC" ∷ codes "E" ∷ codes "Jane" ∷ [])
    ∷ ([] ∷ codes "E" ∷ [])
    ∷ (codes "k0abc" ∷ codes "G" ∷ [])
    ∷ (codes "AA1A" ∷ [])
    ∷ []

abbrev file_of : Result UsCsvFile → UsCsvFile
file_of (ok file) = file
file_of (err e) = record { records = []; callsigns = [] }

abbrev catalog : UsCsvFile
catalog = file_of (open_csv lossy (map ok rows))

later_row :
    map_option {B = Bytes × Bytes}
      (λ r. (r.callsign, r.class))
      (get_record catalog (codes " K0abc "))
    ≡ some (codes "k0abc", codes "G")
unfolding get_record trim trim_end trim_start open_csv
later_row = refl

dated : contains_callsign catalog (codes "K0ABC:2020") ≡ false
unfolding contains_callsign trim trim_end trim_start
dated = refl

in_order : map (λ r. r.callsign) (catalog_records catalog) ≡ codes "AA1A" ∷ codes "k0abc" ∷ []
unfolding catalog_records open_csv trim trim_end trim_start
in_order = refl

get_record-open_csv_example :
    (file : UsCsvFile) × (open_csv lossy (map ok rows) ≡ ok file)
    × (get_record file (codes "K0ABC")
        ≡ (normalized_lookup_key (codes "K0ABC") >>= λ target. last_row lossy target rows))
get_record-open_csv_example = get_record-open_csv lossy rows (codes "K0ABC")

open_csv-err_example :
    open_csv lossy (map ok rows ++ (err csv ∷ ok (codes "W1AW" ∷ []) ∷ [])) ≡ err csv
open_csv-err_example = open_csv-err lossy rows csv (ok (codes "W1AW" ∷ []) ∷ [])
