-- ===== src/Tests/Modern.antt =====
-- Snapshots and their merging.
use callbook_rs.Prelude.{codes, refl, ◌≡◌, arith, none, some, [], ◌∷◌}
use callbook_rs.Modern.Snapshot.{CallSnapshot, new, us_csv, ham_call_dat_idx}
use callbook_rs.Modern.Tags.{get}
use callbook_rs.Modern.Tags.Lookup.{TagsSorted, or_else}
use callbook_rs.Modern.Merge.{merge_missing_from, display_name}
use callbook_rs.Modern.Merge.Union.{get-merge_missing_from, merge_missing_from-merge_missing_from}

abbrev catalogue : CallSnapshot
catalogue = record (new (codes "W1AW") none us_csv) {
  last_name = some (codes "ARRL HQ OPERATORS CLUB");
  city = some (codes "");
  raw_tags = record { tag = 7; value = codes "a" } ∷ [];
}

abbrev from_dat : CallSnapshot
from_dat = record (new (codes "W1AW") none ham_call_dat_idx) {
  first_name = some (codes "HIRAM");
  last_name = some (codes "MAXIM");
  city = some (codes "NEWINGTON");
  raw_tags = record { tag = 3; value = codes "x" } ∷ record { tag = 7; value = codes "b" } ∷ [];
}

from_dat-TagsSorted : TagsSorted from_dat.raw_tags
from_dat-TagsSorted = ((omega arith, tt), (tt, tt))

-- An empty city is filled, and the whole name is that of the snapshot with a first name.
merged_city : (merge_missing_from catalogue from_dat).city ≡ some (codes "NEWINGTON")
unfolding merge_missing_from
merged_city = refl

merged_name : display_name (merge_missing_from catalogue from_dat) ≡ some (codes "HIRAM MAXIM")
unfolding merge_missing_from display_name
merged_name = refl

get-merge_missing_from_example :
    get 7 (merge_missing_from catalogue from_dat).raw_tags
    ≡ or_else (get 7 from_dat.raw_tags) (get 7 catalogue.raw_tags)
get-merge_missing_from_example = get-merge_missing_from 7 catalogue from_dat from_dat-TagsSorted

merge_missing_from-merge_missing_from_example :
    merge_missing_from (merge_missing_from catalogue from_dat) from_dat
    ≡ merge_missing_from catalogue from_dat
merge_missing_from-merge_missing_from_example =
    merge_missing_from-merge_missing_from catalogue from_dat from_dat-TagsSorted
