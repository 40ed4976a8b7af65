-- ===== src/Sidecar/Counties.antt =====
-- `UsCountyBoundaryDataset`: the county boundaries of `USCOUN.DAT`.
use callbook_rs.Prelude.{
  Bytes, List, Option, [], any, codes, cons_some, drop, get_elem?, if◌then◌else◌, is_empty, map,
  map_option, none, not, some, then_some, unwrap_or, ℕ, ◌++◌, ◌==◌, ◌>>=◌, ◌∷◌,
}
use callbook_rs.Prelude.Text.{str_trim, strip_prefix}
use callbook_rs.Prelude.Words.{split_by}
use callbook_rs.Decimal.{parse_uint}
use callbook_rs.Error.{Result, err, ok}
use callbook_rs.Sidecar.Float.{Float}
use callbook_rs.Sidecar.Group.{read_groups}
use callbook_rs.Sidecar.Boundary.{
  BoundaryBox, GeoPoint, BoundarySegment, BoundaryDataset, us_county, read_lines, content_lines,
  box_of, parse_boundary_header, parse_geo_point, expand_bounds_to_points, bounds_for_points,
}

pub record UsCountyBoundary (F64 : Type 0) : Type 0 where
  pub id : Option Bytes
  pub name : Option Bytes
  pub bounds : Option (BoundaryBox F64)
  pub next_offset : Option ℕ
  pub points : List (GeoPoint F64)

pub record UsCountyBoundaryDataset (F64 : Type 0) : Type 0 where
  pub path : Bytes
  pub counties : List (UsCountyBoundary F64)

-- `filter(|value| !value.is_empty())`.
abbrev pub if_not_empty : Bytes → Option Bytes
if_not_empty value = then_some (not (is_empty value)) value

module _ (fl : Float) where
  -- The four numbers of the bounds, and what follows them.
  abbrev pub bounds_from : List Bytes → Option (BoundaryBox fl.F64)
  bounds_from (v0 ∷ v1 ∷ v2 ∷ v3 ∷ values) = fl.parse_f64 v0 >>= λ min_lon.
      fl.parse_f64 v1 >>= λ max_lon. fl.parse_f64 v2 >>= λ min_lat.
      map_option (λ max_lat. box_of fl min_lon max_lon min_lat max_lat) (fl.parse_f64 v3)
  bounds_from values = none

  abbrev pub county_of : List Bytes → UsCountyBoundary fl.F64
  county_of fields = record {
    id = get_elem? fields 0 >>= if_not_empty;
    name = get_elem? fields 1 >>= if_not_empty;
    bounds = bounds_from (drop 2 fields);
    next_offset = get_elem? (drop 2 fields) 4 >>= parse_uint 64;
    points = [];
  }

  unfoldable pub parse_us_county_header : Bytes → UsCountyBoundary fl.F64
  unfolding split_by str_trim parse_uint
  parse_us_county_header header =
      let separator = if any (λ b. b == b'*') header then b'*' else b'|' in
      county_of (map str_trim (split_by (λ b. b == separator) header))

  -- The county of a header as the other boundary files have it.
  abbrev pub county_of_segment : Option (BoundarySegment fl.F64) → UsCountyBoundary fl.F64
  county_of_segment segment = record {
    id = none;
    name = none;
    bounds = map_option (λ s. s.bounds) segment;
    next_offset = map_option (λ s. s.next_offset) segment;
    points = [];
  }

  abbrev pub county_marked : Option Bytes → Bytes → Option (UsCountyBoundary fl.F64)
  county_marked (some header) line = some (parse_us_county_header (str_trim header))
  county_marked none line = then_some (any (λ b. b == b'*') line) (parse_us_county_header line)

  abbrev pub county_at : Option Bytes → Bytes → Option (UsCountyBoundary fl.F64)
  county_at (some header) line = some (county_of_segment (parse_boundary_header fl header))
  county_at none line = county_marked (strip_prefix line (codes "#")) line

  -- A line of any of the three forms of a header closes the current county and starts another.
  unfoldable pub county_opens : Bytes → Option (Option (UsCountyBoundary fl.F64))
  unfolding strip_prefix parse_us_county_header parse_boundary_header str_trim
  county_opens line = map_option some (county_at (strip_prefix line (codes "# -b ")) line)

  unfoldable pub push_county_point : Bytes → UsCountyBoundary fl.F64 → UsCountyBoundary fl.F64
  unfolding parse_geo_point
  push_county_point line county = record county {
    points = county.points ++ cons_some (parse_geo_point fl line) [];
  }

  unfoldable pub county_with_point_bounds : UsCountyBoundary fl.F64 → UsCountyBoundary fl.F64
  unfolding expand_bounds_to_points
  county_with_point_bounds county = record county {
    bounds = map_option (λ b. expand_bounds_to_points fl b county.points) county.bounds;
  }

  -- The loop of `UsCountyBoundaryDataset::open`.
  unfoldable pub read_counties : List Bytes → List (UsCountyBoundary fl.F64)
  unfolding read_groups county_opens push_county_point county_with_point_bounds content_lines
  read_counties lines =
      read_groups county_opens push_county_point county_with_point_bounds (content_lines lines)

  unfoldable pub open_counties :
      Bytes → List (Result Bytes) → Result (UsCountyBoundaryDataset fl.F64)
  unfolding read_lines read_counties
  open_counties path lines = elim (read_lines lines) [
    | err why ↦ err why
    | ok texts ↦ ok (record { path = path; counties = read_counties texts })
  ]

  unfoldable pub segment_of_county : UsCountyBoundary fl.F64 → BoundarySegment fl.F64
  unfolding bounds_for_points
  segment_of_county county = record {
    bounds = unwrap_or county.bounds (bounds_for_points fl county.points);
    next_offset = unwrap_or county.next_offset 0;
    points = county.points;
  }

  -- `boundary_dataset`.
  unfoldable pub county_boundary_dataset : UsCountyBoundaryDataset fl.F64 → BoundaryDataset fl.F64
  unfolding segment_of_county
  county_boundary_dataset dataset = record {
    path = dataset.path;
    kind = us_county;
    segments = map segment_of_county dataset.counties;
  }
