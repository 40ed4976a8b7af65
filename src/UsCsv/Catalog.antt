-- ===== src/UsCsv/Catalog.antt =====
-- What the catalogue holds after reading, and the error of a row that cannot be read.
use callbook_rs.Prelude.{
  Bool, Bool-cases, Bytes, List, Option, Option-cases, [], ap, bytes_eq, inl, inr, is_empty, map,
  none, not, or_else, or_else_assoc, or_else-none, refl, then_some, ◌&&◌, ◌++◌, ◌>>=◌, ◌∙◌, ◌∷◌,
  ◌≡◌,
}
use callbook_rs.Prelude.Map.{get, get-insert}
use callbook_rs.Prelude.Text.{to_uppercase}
use callbook_rs.Error.{Error, Result, ok, err}
use callbook_rs.UsCsv.{
  UsCsvRecord, UsCsvFile, field, record_of, insert_row, read_rows, open_csv, catalog_of, sort_calls,
  keys, normalized_lookup_key, get_record,
}

-- The row has this callsign, which is not empty, in upper case.
abbrev pub row_is : (Bytes → Bytes) → Bytes → List Bytes → Bool
row_is lossy target row =
    not (is_empty (field lossy row 0)) && bytes_eq target (to_uppercase (field lossy row 0))

-- The record of the last row with the callsign.
abbrev pub last_row : (Bytes → Bytes) → Bytes → List (List Bytes) → Option UsCsvRecord
last_row lossy target [] = none
last_row lossy target (row ∷ rows) =
    or_else (last_row lossy target rows) (then_some (row_is lossy target row) (record_of lossy row))

abbrev insert_rows :
    (Bytes → Bytes) → List (List Bytes) → List (Bytes × UsCsvRecord) → List (Bytes × UsCsvRecord)
insert_rows lossy [] records = records
insert_rows lossy (row ∷ rows) records = insert_rows lossy rows (insert_row lossy row records)

read_rows-ok :
    (lossy : Bytes → Bytes) (rows : List (List Bytes)) (records : List (Bytes × UsCsvRecord))
    → read_rows lossy (map ok rows) records ≡ ok (insert_rows lossy rows records)
unfolding read_rows
read_rows-ok lossy [] records = refl
read_rows-ok lossy (row ∷ rows) records = read_rows-ok lossy rows (insert_row lossy row records)

read_rows-err :
    (lossy : Bytes → Bytes) (before : List (List Bytes)) (e : Error)
    (after : List (Result (List Bytes))) (records : List (Bytes × UsCsvRecord))
    → read_rows lossy (map ok before ++ (err e ∷ after)) records ≡ err e
unfolding read_rows
read_rows-err lossy [] e after records = refl
read_rows-err lossy (row ∷ before) e after records =
    read_rows-err lossy before e after (insert_row lossy row records)

get-insert_row :
    (lossy : Bytes → Bytes) (row : List Bytes) (records : List (Bytes × UsCsvRecord)) (t : Bytes)
    → get t (insert_row lossy row records)
      ≡ or_else (then_some (row_is lossy t row) (record_of lossy row)) (get t records)
unfolding insert_row
get-insert_row lossy row records t =
    let key = to_uppercase (field lossy row 0) in
    elim (Bool-cases (is_empty (field lossy row 0))) [
      | inl e ↦ rw e refl
      | inr e ↦ elim (Bool-cases (bytes_eq t key)) [
        | inl f ↦ rw (e, f) (get-insert t key (record_of lossy row) records ∙ rw f refl)
        | inr f ↦ rw (e, f) (get-insert t key (record_of lossy row) records ∙ rw f refl)
      ]
    ]

get-insert_rows :
    (lossy : Bytes → Bytes) (rows : List (List Bytes)) (records : List (Bytes × UsCsvRecord))
    (t : Bytes)
    → get t (insert_rows lossy rows records) ≡ or_else (last_row lossy t rows) (get t records)
get-insert_rows lossy [] records t = refl
get-insert_rows lossy (row ∷ rows) records t =
    get-insert_rows lossy rows (insert_row lossy row records) t
    ∙ ap (or_else (last_row lossy t rows)) (get-insert_row lossy row records t)
    ∙ or_else_assoc (last_row lossy t rows) (then_some (row_is lossy t row) (record_of lossy row))
        (get t records)

-- If every row can be read, opening the catalogue succeeds, and looking up a callsign returns the
-- record of the last row whose trimmed callsign, in upper case, equals the callsign searched for,
-- trimmed and in upper case; it returns nothing if there is no such row, or if the callsign searched
-- for is blank or has a colon.
pub get_record-open_csv :
    (lossy : Bytes → Bytes) (rows : List (List Bytes)) (callsign : Bytes)
    → (file : UsCsvFile) × (open_csv lossy (map ok rows) ≡ ok file)
      × (get_record file callsign
          ≡ (normalized_lookup_key callsign >>= λ target. last_row lossy target rows))
unfolding open_csv get_record
get_record-open_csv lossy rows callsign =
    let records = insert_rows lossy rows [] in
    (
      record { records = records; callsigns = sort_calls (keys records) },
      ap catalog_of (read_rows-ok lossy rows []),
      elim (Option-cases (normalized_lookup_key callsign)) [
        | inl e ↦ rw e refl
        | inr (t, e) ↦ rw e (get-insert_rows lossy rows [] t ∙ or_else-none (last_row lossy t rows))
      ],
    )

-- If a row cannot be read, opening the catalogue returns the error of the first such row.
pub open_csv-err :
    (lossy : Bytes → Bytes) (before : List (List Bytes)) (e : Error)
    (after : List (Result (List Bytes)))
    → open_csv lossy (map ok before ++ (err e ∷ after)) ≡ err e
unfolding open_csv
open_csv-err lossy before e after = ap catalog_of (read_rows-err lossy before e after [])
