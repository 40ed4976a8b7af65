-- ===== src/Tests/Sidecar.antt =====
-- The sidecar readers, on small files.
use callbook_rs.Prelude.Order.{lt_bytes}
use callbook_rs.Prelude.Trim.{trim_end, trim_start, trim}
use callbook_rs.Prelude.{
  zero, suc, All, Bytes, List, [], arith, codes, leb, max, min, none, refl, some, subst, sym, true,
  ℕ, ◌++◌, ◌/◌, ◌∷◌, ◌≡◌,
}
use callbook_rs.Prelude.Text.{str_trim, to_uppercase}
use callbook_rs.Cipher.{decode_from, unmask}
use callbook_rs.Decimal.{parse_uint}
use callbook_rs.Sidecar.Counts.{
  LookupCountFile, LookupCountRecord, open_counts, decoded_key, lookup_count, iter_counts,
  searchable_record_range,
}
use callbook_rs.Sidecar.Search.{KeysAscend}
use callbook_rs.Sidecar.Catalog.{first_record, lookup_count-iter_counts}
use callbook_rs.Sidecar.Float.{Float, FloatLaws}
use callbook_rs.Sidecar.Boundary.{
  BoundarySegment, read_segments, segment_with_point_bounds, content_lines,
}
use callbook_rs.Sidecar.Boundary.Bounds.{Within, InBox, segment_with_point_bounds-InBox}
use callbook_rs.Sidecar.Boundary.Read.{segments_of, read_segments-segments_of}
use callbook_rs.Sidecar.States.{read_points, vector_dataset}
use callbook_rs.Sidecar.Centroids.{parse_centroids, lookup_centroid}

-- The text of a file whose bytes are ASCII.
abbrev lossy : Bytes → Bytes
lossy bytes = bytes

abbrev two_counts : LookupCountFile
two_counts = open_counts (
    decode_from 0
      (codes "K1ABC         1202    20130805N\r\n" ++ codes "W4O              7            Y\r\n"))

abbrev w4o : LookupCountRecord
w4o = record { key = codes "W4O"; count = 7; updated_yyyymmdd = none; status = some b'Y' }

lookup_w4o : lookup_count lossy two_counts (codes " w4o ") ≡ some w4o
unfolding lookup_count trim_end trim_start open_counts unmask
lookup_w4o = refl

-- The numbers of the files here are natural.
abbrev naturals : Float
naturals = record {
  F64 = ℕ;
  parse_f64 = parse_uint 53;
  of_nat = λ n. n;
  negate = λ x. 0;
  divide = λ x y. x / y;
  minimum = min;
  maximum = max;
  le_f64 = leb;
  is_finite = λ x. true;
}

naturals-FloatLaws : FloatLaws naturals
naturals-FloatLaws = record {
  le_f64_trans = λ x y z h k. ground arith;
  le-minimum-left = λ x y h k. ground arith;
  le-minimum-right = λ x y h k. ground arith;
  minimum-IsNumber = λ x y h k. ground arith;
  le-maximum-left = λ x y h k. ground arith;
  le-maximum-right = λ x y h k. ground arith;
  maximum-IsNumber = λ x y h k. ground arith;
}

abbrev boundary_lines : List Bytes
boundary_lines =
    codes "1 2" ∷ codes " # -b 3 5 4 6 100 " ∷ [] ++ (codes "2 9" ∷ codes "x" ∷ codes "4 4" ∷ [])

abbrev segment : BoundarySegment ℕ
segment = record {
  bounds = record { min_lon = 3; max_lon = 5; min_lat = 4; max_lat = 6 };
  next_offset = 100;
  points = record { lon = 2; lat = 9 } ∷ record { lon = 4; lat = 4 } ∷ [];
}

read_boundary_lines :
    read_segments naturals boundary_lines
    ≡ record segment { bounds = record { min_lon = 2; max_lon = 5; min_lat = 4; max_lat = 9 } } ∷ []
unfolding read_segments trim trim_end trim_start
read_boundary_lines = refl

read_segments-segments_of_example :
    read_segments naturals boundary_lines ≡ segments_of naturals (content_lines boundary_lines)
read_segments-segments_of_example = read_segments-segments_of naturals boundary_lines

segment_with_point_bounds-InBox_example :
    Within naturals segment.bounds (segment_with_point_bounds naturals segment).bounds
    × All
        (InBox naturals (segment_with_point_bounds naturals segment).bounds)
        (segment_with_point_bounds naturals segment).points
segment_with_point_bounds-InBox_example =
    segment_with_point_bounds-InBox naturals naturals-FloatLaws segment (refl, refl, refl, refl)
      ((refl, refl), ((refl, refl), tt))

-- A point in front of the first path, a path of two points, and half a triple.
abbrev state_bytes : Bytes
state_bytes = 1 ∷ 0 ∷ 60 ∷ 0 ∷ 120 ∷ 0 ∷ 11 ∷ 0 ∷ 60 ∷ 0 ∷ 180 ∷ 0 ∷ 2 ∷ 0 ∷ 0 ∷ 1 ∷ 60 ∷ 0 ∷ 9 ∷ []

state_paths :
    vector_dataset naturals (read_points state_bytes)
    ≡ record {
      command = 11;
      points = record { lon = 3; lat = 1 } ∷ record { lon = 1; lat = 4 } ∷ [];
    }
      ∷ []
unfolding vector_dataset read_points
state_paths = refl

abbrev centroid_text : Bytes
centroid_text = codes "Chad (1,2)\nMali (3, 4)\nCHAD (15,19)\nPeru (95,1)\n"

chad :
    lookup_centroid naturals (parse_centroids naturals centroid_text) (codes "chad ")
    ≡ some (record { name = codes "CHAD"; location = record { lon = 19; lat = 15 } })
unfolding lookup_centroid parse_centroids trim trim_end trim_start parse_uint
chad = refl

ascend : KeysAscend (decoded_key lossy two_counts) 0 2
unfolding decoded_key open_counts trim_end trim_start unmask lt_bytes
ascend zero zero a b c = absurd (omega arith)
ascend zero (suc zero) a b c = refl
ascend zero (suc (suc j)) a b c = absurd (omega arith)
ascend (suc i) zero a b c = absurd (omega arith)
ascend (suc i) (suc zero) a b c = absurd (omega arith)
ascend (suc i) (suc (suc j)) a b c = absurd (omega arith)

range_two : searchable_record_range lossy two_counts ≡ (0, 2)
unfolding searchable_record_range open_counts
range_two = refl

ascend_range :
    KeysAscend
      (decoded_key lossy two_counts)
      (searchable_record_range lossy two_counts).0
      (searchable_record_range lossy two_counts).1
ascend_range = subst (λ r. KeysAscend (decoded_key lossy two_counts) r.0 r.1) (sym range_two) ascend

lookup_count-iter_counts_example :
    lookup_count lossy two_counts (codes " w4o ")
    ≡ first_record (to_uppercase (str_trim (codes " w4o "))) (iter_counts lossy two_counts)
lookup_count-iter_counts_example =
    lookup_count-iter_counts lossy two_counts (codes " w4o ") ascend_range
