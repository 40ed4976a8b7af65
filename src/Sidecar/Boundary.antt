-- ===== src/Sidecar/Boundary.antt =====
-- `BoundaryFile` and `BoundaryDataset`: the boundary files `wc.dat` and `cb.dat`.
pub mod Bounds
pub mod Read
use callbook_rs.Prelude.{
  Bytes, List, Option, [], codes, cons_some, filter, is_empty, length, map, map_option, none, not,
  ℕ, ◌++◌, ◌+◌, ◌>>=◌, ◌∷◌,
}
use callbook_rs.Prelude.Text.{str_trim, strip_prefix}
use callbook_rs.Prelude.Words.{split_whitespace}
use callbook_rs.Decimal.{parse_uint}
use callbook_rs.Error.{Result, err, ok}
use callbook_rs.Sidecar.Float.{Float}
use callbook_rs.Sidecar.Group.{read_groups}

pub record BoundaryBox (F64 : Type 0) : Type 0 where
  pub min_lon : F64
  pub max_lon : F64
  pub min_lat : F64
  pub max_lat : F64

pub record GeoPoint (F64 : Type 0) : Type 0 where
  pub lon : F64
  pub lat : F64

pub record BoundarySegment (F64 : Type 0) : Type 0 where
  pub bounds : BoundaryBox F64
  pub next_offset : ℕ
  pub points : List (GeoPoint F64)

pub data BoundaryKind : Type 0 where
  world county us_county : BoundaryKind

-- A path is a byte string.
pub record BoundaryDataset (F64 : Type 0) : Type 0 where
  pub path : Bytes
  pub kind : BoundaryKind
  pub segments : List (BoundarySegment F64)

-- The sum of the lengths.
abbrev pub sum_lengths {ℓ κ} : {A : Type ℓ} {B : Type κ} → (A → List B) → List A → ℕ
sum_lengths points_of [] = 0
sum_lengths points_of (x ∷ xs) = length (points_of x) + sum_lengths points_of xs

unfoldable pub point_count : {F64 : Type 0} → BoundaryDataset F64 → ℕ
point_count dataset = sum_lengths (λ segment. segment.points) dataset.segments

-- The lines of a reader up to the first that cannot be read, which ends the loop with its error.
unfoldable pub read_lines : List (Result Bytes) → Result (List Bytes)
read_lines [] = ok []
read_lines (err why ∷ lines) = err why
read_lines (ok line ∷ lines) = elim (read_lines lines) [
  | err why ↦ err why
  | ok rest ↦ ok (line ∷ rest)
]

-- The trimmed lines that are not empty.
unfoldable pub content_lines : List Bytes → List Bytes
unfolding str_trim
content_lines lines = filter (λ line. not (is_empty line)) (map str_trim lines)

module _ (fl : Float) where
  abbrev pub box_of : fl.F64 → fl.F64 → fl.F64 → fl.F64 → BoundaryBox fl.F64
  box_of a b c d = record { min_lon = a; max_lon = b; min_lat = c; max_lat = d }

  abbrev pub header_of : List Bytes → Option (BoundarySegment fl.F64)
  header_of (p0 ∷ p1 ∷ p2 ∷ p3 ∷ p4 ∷ []) = fl.parse_f64 p0 >>= λ min_lon.
      fl.parse_f64 p1 >>= λ max_lon. fl.parse_f64 p2 >>= λ min_lat. fl.parse_f64 p3 >>= λ max_lat.
      map_option
        (λ next_offset. record {
          bounds = box_of min_lon max_lon min_lat max_lat;
          next_offset = next_offset;
          points = [];
        })
        (parse_uint 64 p4)
  header_of parts = none

  unfoldable pub parse_boundary_header : Bytes → Option (BoundarySegment fl.F64)
  unfolding split_whitespace parse_uint
  parse_boundary_header header = header_of (split_whitespace header)

  abbrev pub point_of : List Bytes → Option (GeoPoint fl.F64)
  point_of (p0 ∷ p1 ∷ parts) = fl.parse_f64 p0 >>= λ lon.
      map_option (λ lat. record { lon = lon; lat = lat }) (fl.parse_f64 p1)
  point_of parts = none

  unfoldable pub parse_geo_point : Bytes → Option (GeoPoint fl.F64)
  unfolding split_whitespace
  parse_geo_point line = point_of (split_whitespace line)

  -- One round of the loop of `expand_bounds_to_points`.
  abbrev pub expand_to : GeoPoint fl.F64 → BoundaryBox fl.F64 → BoundaryBox fl.F64
  expand_to point bounds = record {
    min_lon = fl.minimum bounds.min_lon point.lon;
    max_lon = fl.maximum bounds.max_lon point.lon;
    min_lat = fl.minimum bounds.min_lat point.lat;
    max_lat = fl.maximum bounds.max_lat point.lat;
  }

  unfoldable pub expand_bounds_to_points :
      BoundaryBox fl.F64 → List (GeoPoint fl.F64) → BoundaryBox fl.F64
  expand_bounds_to_points bounds [] = bounds
  expand_bounds_to_points bounds (point ∷ points) =
      expand_bounds_to_points (expand_to point bounds) points

  -- The loop of `bounds_for_points` starts from the box of the first point.
  unfoldable pub bounds_for_points : List (GeoPoint fl.F64) → BoundaryBox fl.F64
  unfolding expand_bounds_to_points
  bounds_for_points [] = box_of (fl.of_nat 0) (fl.of_nat 0) (fl.of_nat 0) (fl.of_nat 0)
  bounds_for_points (first ∷ points) =
      expand_bounds_to_points (box_of first.lon first.lon first.lat first.lat) (first ∷ points)

  unfoldable pub segment_with_point_bounds : BoundarySegment fl.F64 → BoundarySegment fl.F64
  unfolding expand_bounds_to_points
  segment_with_point_bounds segment = record segment {
    bounds = expand_bounds_to_points segment.bounds segment.points;
  }

  -- A header line closes the current segment; one that is malformed leaves none.
  unfoldable pub segment_opens : Bytes → Option (Option (BoundarySegment fl.F64))
  unfolding parse_boundary_header strip_prefix
  segment_opens line = map_option parse_boundary_header (strip_prefix line (codes "# -b "))

  unfoldable pub push_point : Bytes → BoundarySegment fl.F64 → BoundarySegment fl.F64
  unfolding parse_geo_point
  push_point line segment = record segment {
    points = segment.points ++ cons_some (parse_geo_point line) [];
  }

  -- The loop of `BoundaryFile::open`.
  unfoldable pub read_segments : List Bytes → List (BoundarySegment fl.F64)
  unfolding read_groups segment_opens push_point segment_with_point_bounds content_lines
  read_segments lines =
      read_groups segment_opens push_point segment_with_point_bounds (content_lines lines)

  -- `BoundaryDataset::open`, on the lines of the file.
  unfoldable pub open_boundary :
      Bytes → BoundaryKind → List (Result Bytes) → Result (BoundaryDataset fl.F64)
  unfolding read_lines read_segments
  open_boundary path kind lines = elim (read_lines lines) [
    | err why ↦ err why
    | ok texts ↦ ok (record { path = path; kind = kind; segments = read_segments texts })
  ]
