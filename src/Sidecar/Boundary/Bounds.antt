-- ===== src/Sidecar/Boundary/Bounds.antt =====
-- The bounds of a segment hold its points.
use callbook_rs.Prelude.{All, List, [], true, ◌∷◌, ◌≡◌}
use callbook_rs.Sidecar.Float.{Float, FloatLaws, IsNumber}
use callbook_rs.Sidecar.Boundary.{
  BoundaryBox, BoundarySegment, GeoPoint, expand_to, expand_bounds_to_points,
  segment_with_point_bounds,
}

module _ (fl : Float) where
  abbrev pub IsNumberBox : BoundaryBox fl.F64 → Type 0
  IsNumberBox box =
      IsNumber fl box.min_lon
      × IsNumber fl box.max_lon
      × IsNumber fl box.min_lat
      × IsNumber fl box.max_lat

  abbrev pub IsNumberPoint : GeoPoint fl.F64 → Type 0
  IsNumberPoint point = IsNumber fl point.lon × IsNumber fl point.lat

  abbrev pub InBox : BoundaryBox fl.F64 → GeoPoint fl.F64 → Type 0
  InBox box point =
      (fl.le_f64 box.min_lon point.lon ≡ true)
      × (fl.le_f64 point.lon box.max_lon ≡ true)
      × (fl.le_f64 box.min_lat point.lat ≡ true)
      × (fl.le_f64 point.lat box.max_lat ≡ true)

  -- The first box lies in the second.
  abbrev pub Within : BoundaryBox fl.F64 → BoundaryBox fl.F64 → Type 0
  Within inner outer =
      (fl.le_f64 outer.min_lon inner.min_lon ≡ true)
      × (fl.le_f64 inner.max_lon outer.max_lon ≡ true)
      × (fl.le_f64 outer.min_lat inner.min_lat ≡ true)
      × (fl.le_f64 inner.max_lat outer.max_lat ≡ true)

  module _ (laws : FloatLaws fl) where
    Within-trans : (a b c : BoundaryBox fl.F64) → Within a b → Within b c → Within a c
    Within-trans a b c (h0, h1, h2, h3) (k0, k1, k2, k3) = (
      laws.le_f64_trans c.min_lon b.min_lon a.min_lon k0 h0,
      laws.le_f64_trans a.max_lon b.max_lon c.max_lon h1 k1,
      laws.le_f64_trans c.min_lat b.min_lat a.min_lat k2 h2,
      laws.le_f64_trans a.max_lat b.max_lat c.max_lat h3 k3,
    )

    InBox-Within :
        (a b : BoundaryBox fl.F64) (point : GeoPoint fl.F64)
        → InBox a point
        → Within a b
        → InBox b point
    InBox-Within a b point (h0, h1, h2, h3) (k0, k1, k2, k3) = (
      laws.le_f64_trans b.min_lon a.min_lon point.lon k0 h0,
      laws.le_f64_trans point.lon a.max_lon b.max_lon h1 k1,
      laws.le_f64_trans b.min_lat a.min_lat point.lat k2 h2,
      laws.le_f64_trans point.lat a.max_lat b.max_lat h3 k3,
    )

    -- One round: the box grows, takes the point in, and has no NaN.
    expand_to-grows :
        (point : GeoPoint fl.F64) (box : BoundaryBox fl.F64)
        → IsNumberBox box
        → IsNumberPoint point
        → Within box (expand_to fl point box)
          × InBox (expand_to fl point box) point
          × IsNumberBox (expand_to fl point box)
    expand_to-grows point box (b0, b1, b2, b3) (p0, p1) = (
      (
        laws.le-minimum-left box.min_lon point.lon b0 p0,
        laws.le-maximum-left box.max_lon point.lon b1 p0,
        laws.le-minimum-left box.min_lat point.lat b2 p1,
        laws.le-maximum-left box.max_lat point.lat b3 p1,
      ),
      (
        laws.le-minimum-right box.min_lon point.lon b0 p0,
        laws.le-maximum-right box.max_lon point.lon b1 p0,
        laws.le-minimum-right box.min_lat point.lat b2 p1,
        laws.le-maximum-right box.max_lat point.lat b3 p1,
      ),
      (
        laws.minimum-IsNumber box.min_lon point.lon b0 p0,
        laws.maximum-IsNumber box.max_lon point.lon b1 p0,
        laws.minimum-IsNumber box.min_lat point.lat b2 p1,
        laws.maximum-IsNumber box.max_lat point.lat b3 p1,
      ),
    )

    pub expand_bounds_to_points-InBox :
        (box : BoundaryBox fl.F64) (points : List (GeoPoint fl.F64))
        → IsNumberBox box
        → All IsNumberPoint points
        → Within box (expand_bounds_to_points fl box points)
          × All (InBox (expand_bounds_to_points fl box points)) points
    unfolding expand_bounds_to_points
    expand_bounds_to_points-InBox box [] (b0, b1, b2, b3) h = ((b0, b1, b2, b3), tt)
    expand_bounds_to_points-InBox box (point ∷ points) b (p, h) =
        let (grows, holds, num) = expand_to-grows point box b p in
        let (wider, all_in) = expand_bounds_to_points-InBox (expand_to fl point box) points num h in
        (
          Within-trans box (expand_to fl point box)
              (expand_bounds_to_points fl (expand_to fl point box) points) grows wider,
          (
            InBox-Within (expand_to fl point box)
                (expand_bounds_to_points fl (expand_to fl point box) points) point holds wider,
            all_in,
          ),
        )

    -- Where the bounds and the points of a segment have no NaN, its effective bounds contain the
    -- bounds of its header and every one of its points.
    pub segment_with_point_bounds-InBox :
        (segment : BoundarySegment fl.F64)
        → IsNumberBox segment.bounds
        → All IsNumberPoint segment.points
        → Within segment.bounds (segment_with_point_bounds fl segment).bounds
          × All
              (InBox (segment_with_point_bounds fl segment).bounds)
              (segment_with_point_bounds fl segment).points
    unfolding segment_with_point_bounds
    segment_with_point_bounds-InBox segment b h =
        expand_bounds_to_points-InBox segment.bounds segment.points b h
