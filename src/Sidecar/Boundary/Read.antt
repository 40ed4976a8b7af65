-- ===== src/Sidecar/Boundary/Read.antt =====
-- What the loop of `BoundaryFile::open` makes of the lines.
use callbook_rs.Prelude.{
  none, some, cons_some-append, >>=-eq-some, Bool, Bytes, List, Option, Option-cases, [], ap,
  append-nil, append_assoc, ap₂, arith, codes, cons_some, filter_map, if◌then◌else◌, inl, inr,
  is_some, map_option, map_option-eq-some, none, refl, some, sym, ◌++◌, ◌∙◌, ◌∷◌, ◌≡◌,
}
use callbook_rs.Prelude.Text.{strip_prefix}
use callbook_rs.Prelude.Words.{split_whitespace}
use callbook_rs.Decimal.{parse_uint}
use callbook_rs.Sidecar.Float.{Float}
use callbook_rs.Sidecar.Group.{groups_of, group_of, body_of, take_all_in, read_groups-groups_of}
use callbook_rs.Sidecar.Boundary.{
  BoundarySegment, parse_boundary_header, parse_geo_point, push_point, segment_opens,
  segment_with_point_bounds, read_segments, content_lines, header_of,
}

abbrev pub is_header : Bytes → Bool
is_header line = is_some (strip_prefix line (codes "# -b "))

-- The lines up to the next header.
abbrev pub until_header : List Bytes → List Bytes
until_header [] = []
until_header (line ∷ lines) = if is_header line then [] else line ∷ until_header lines

module _ (fl : Float) where
  -- A segment from its header and the lines up to the next header: those that are no pair of
  -- coordinates are left out.
  abbrev pub segment_from : Bytes → List Bytes → Option (BoundarySegment fl.F64)
  segment_from header lines =
      map_option
        (λ segment.
          segment_with_point_bounds fl
            (record segment { points = filter_map (parse_geo_point fl) (until_header lines) }))
        (parse_boundary_header fl header)

  abbrev pub segment_at :
      Option Bytes → List Bytes → List (BoundarySegment fl.F64) → List (BoundarySegment fl.F64)
  segment_at none lines rest = rest
  segment_at (some header) lines rest = cons_some (segment_from header lines) rest

  abbrev pub segments_of : List Bytes → List (BoundarySegment fl.F64)
  segments_of [] = []
  segments_of (line ∷ lines) =
      segment_at (strip_prefix line (codes "# -b ")) lines (segments_of lines)

  take_all_in-push_point :
      (lines : List Bytes) (segment : BoundarySegment fl.F64)
      → take_all_in (segment_opens fl) (push_point fl) (segment_with_point_bounds fl) lines segment
        ≡ record segment { points = segment.points ++ filter_map (parse_geo_point fl) lines }
  unfolding push_point
  take_all_in-push_point [] segment =
      ap (λ ps. record segment { points = ps }) (sym (append-nil segment.points))
  take_all_in-push_point (line ∷ lines) segment =
      take_all_in-push_point lines (push_point fl line segment)
      ∙ ap (λ ps. record segment { points = ps })
          (append_assoc segment.points (cons_some (parse_geo_point fl line) [])
              (filter_map (parse_geo_point fl) lines)
            ∙ ap (λ ps. segment.points ++ ps)
                (cons_some-append (parse_geo_point fl line)
                  (filter_map (parse_geo_point fl) lines)))

  header_of-points :
      (parts : List Bytes) (segment : BoundarySegment fl.F64)
      → header_of fl parts ≡ some segment
      → segment.points ≡ []
  header_of-points [] segment h = ground arith
  header_of-points (a ∷ []) segment h = ground arith
  header_of-points (a ∷ b ∷ []) segment h = ground arith
  header_of-points (a ∷ b ∷ c ∷ []) segment h = ground arith
  header_of-points (a ∷ b ∷ c ∷ d ∷ []) segment h = ground arith
  header_of-points (a ∷ b ∷ c ∷ d ∷ e ∷ []) segment h =
      let (w, _, h1) = >>=-eq-some (fl.parse_f64 a) _ h in
      let (x, _, h2) = >>=-eq-some (fl.parse_f64 b) _ h1 in
      let (y, _, h3) = >>=-eq-some (fl.parse_f64 c) _ h2 in
      let (z, _, h4) = >>=-eq-some (fl.parse_f64 d) _ h3 in
      let (n, _, made) = map_option-eq-some _ (parse_uint 64 e) h4 in sym (ap (λ s. s.points) made)
  header_of-points (a ∷ b ∷ c ∷ d ∷ e ∷ f ∷ parts) segment h = ground arith

  abbrev body : List Bytes → List Bytes
  body lines = body_of (segment_opens fl) (push_point fl) (segment_with_point_bounds fl) lines

  body-until_header : (lines : List Bytes) → body lines ≡ until_header lines
  unfolding segment_opens
  body-until_header [] = refl
  body-until_header (line ∷ lines) = elim (Option-cases (strip_prefix line (codes "# -b "))) [
    | inl e ↦ rw (e, body-until_header lines) refl
    | inr (header, e) ↦ rw e refl
  ]

  group_of-segment_from :
      (header : Bytes) (lines : List Bytes)
      → group_of
          (segment_opens fl)
          (push_point fl)
          (segment_with_point_bounds fl)
          (parse_boundary_header fl header)
          lines
        ≡ segment_from header lines
  unfolding parse_boundary_header
  group_of-segment_from header lines = elim (Option-cases (parse_boundary_header fl header)) [
    | inl e ↦ rw e refl
    | inr (segment, e) ↦
        rw
          (
            e,
            body-until_header lines,
            take_all_in-push_point (until_header lines) segment,
            header_of-points (split_whitespace header) segment e,
          )
          refl
  ]

  groups_of-segments_of :
      (lines : List Bytes)
      → groups_of (segment_opens fl) (push_point fl) (segment_with_point_bounds fl) lines
        ≡ segments_of lines
  unfolding segment_opens
  groups_of-segments_of [] = refl
  groups_of-segments_of (line ∷ lines) = elim (Option-cases (strip_prefix line (codes "# -b "))) [
    | inl e ↦ rw e (groups_of-segments_of lines)
    | inr (header, e) ↦
        rw e (ap₂ cons_some (group_of-segment_from header lines) (groups_of-segments_of lines))
  ]

  -- The segments read are one for each header line that is well formed, in the order of the file,
  -- with the points of the lines between it and the next header; what stands in front of the first
  -- header or behind a malformed one is left out.
  pub read_segments-segments_of :
      (lines : List Bytes) → read_segments fl lines ≡ segments_of (content_lines lines)
  unfolding read_segments
  read_segments-segments_of lines =
      read_groups-groups_of (segment_opens fl) (push_point fl) (segment_with_point_bounds fl)
        (content_lines lines)
      ∙ groups_of-segments_of (content_lines lines)
