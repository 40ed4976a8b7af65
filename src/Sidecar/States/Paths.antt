-- ===== src/Sidecar/States/Paths.antt =====
-- The paths of the state map hold the points of the file.
use callbook_rs.Prelude.{
  Bool-cases, List, [], ap, append-nil, append_assoc, ap₂, if◌then◌else◌, inl, inr, map, map-append,
  refl, sym, ◌++◌, ◌∙◌, ◌∷◌, ◌≡◌,
}
use callbook_rs.Sidecar.Float.{Float}
use callbook_rs.Sidecar.Group.{groups_of, body_of, take_all_in, read_groups-groups_of}
use callbook_rs.Sidecar.Boundary.{GeoPoint}
use callbook_rs.Sidecar.States.{
  PackedStatePoint, StateVectorSegment, starts_path, state_vector_geo_point, path_opens,
  push_path_point, vector_dataset,
}

-- The points from the first that starts a path on.
abbrev pub from_first_path : List PackedStatePoint → List PackedStatePoint
from_first_path [] = []
from_first_path (point ∷ points) =
    if starts_path point.command then point ∷ points else from_first_path points

module _ (fl : Float) where
  abbrev pub all_points : List (StateVectorSegment fl.F64) → List (GeoPoint fl.F64)
  all_points [] = []
  all_points (segment ∷ segments) = segment.points ++ all_points segments

  abbrev body : List PackedStatePoint → List PackedStatePoint
  body points = body_of (path_opens fl) (push_path_point fl) (λ segment. segment) points

  take_all_in-points :
      (points : List PackedStatePoint) (segment : StateVectorSegment fl.F64)
      → (take_all_in (path_opens fl) (push_path_point fl) (λ s. s) points segment).points
        ≡ segment.points ++ map (state_vector_geo_point fl) points
  unfolding push_path_point
  take_all_in-points [] segment = sym (append-nil segment.points)
  take_all_in-points (point ∷ points) segment =
      take_all_in-points points (push_path_point fl point segment)
      ∙ append_assoc segment.points (state_vector_geo_point fl point ∷ [])
          (map (state_vector_geo_point fl) points)

  body-append-from_first_path :
      (points : List PackedStatePoint) → body points ++ from_first_path points ≡ points
  unfolding path_opens
  body-append-from_first_path [] = refl
  body-append-from_first_path (point ∷ points) = elim (Bool-cases (starts_path point.command)) [
    | inl e ↦ rw e refl
    | inr e ↦ rw e (ap (λ ps. point ∷ ps) (body-append-from_first_path points))
  ]

  groups_of-all_points :
      (points : List PackedStatePoint)
      → all_points (groups_of (path_opens fl) (push_path_point fl) (λ s. s) points)
        ≡ map (state_vector_geo_point fl) (from_first_path points)
  unfolding path_opens
  groups_of-all_points [] = refl
  groups_of-all_points (point ∷ points) = elim (Bool-cases (starts_path point.command)) [
    | inr e ↦ rw e (groups_of-all_points points)
    | inl e ↦ rw e (
        ap₂ ◌++◌
          (take_all_in-points (body points)
            (record { command = point.command; points = state_vector_geo_point fl point ∷ [] }))
          (groups_of-all_points points)
        ∙ ap (λ ps. state_vector_geo_point fl point ∷ ps)
            (sym (map-append (state_vector_geo_point fl) (body points) (from_first_path points))
              ∙ ap (map (state_vector_geo_point fl)) (body-append-from_first_path points)))
  ]

  -- The paths that are read hold, in the order of the file and each once, exactly the points from
  -- the first triple with a drawing command above 10 on.
  pub vector_dataset-all_points :
      (points : List PackedStatePoint)
      → all_points (vector_dataset fl points)
        ≡ map (state_vector_geo_point fl) (from_first_path points)
  unfolding vector_dataset
  vector_dataset-all_points points =
      ap all_points (read_groups-groups_of (path_opens fl) (push_path_point fl) (λ s. s) points)
      ∙ groups_of-all_points points
