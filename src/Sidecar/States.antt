-- ===== src/Sidecar/States.antt =====
-- `PackedStateMap` and `StateVectorDataset`: the packed triples of `state.dat`.
pub mod Paths
use callbook_rs.Prelude.{
  Bool, Bytes, List, Option, [], if◌then◌else◌, leb, ltb, not, some, then_some, ℕ, ◌&&◌, ◌*◌, ◌++◌,
  ◌+◌, ◌-◌, ◌^◌, ◌∷◌,
}
use callbook_rs.Sidecar.Float.{Float}
use callbook_rs.Sidecar.Group.{read_groups}
use callbook_rs.Sidecar.Boundary.{GeoPoint, sum_lengths}

-- An `i16` is its bit pattern, a number below 2^16; from 2^15 on it is negative.
abbrev pub is_negative : ℕ → Bool
is_negative w = leb (2 ^ 15) w

pub record PackedStatePoint : Type 0 where
  pub command : ℕ
  pub lat_minutes : ℕ
  pub lon_minutes : ℕ

-- `i16::from_le_bytes`.
abbrev pub i16_le : ℕ → ℕ → ℕ
i16_le low high = low + 256 * high

-- The loop over `chunks_exact(6)`.
unfoldable pub read_points : Bytes → List PackedStatePoint
read_points (b0 ∷ b1 ∷ b2 ∷ b3 ∷ b4 ∷ b5 ∷ bytes) =
    record { command = i16_le b0 b1; lat_minutes = i16_le b2 b3; lon_minutes = i16_le b4 b5 }
    ∷ read_points bytes
read_points bytes = []

pub record StateVectorSegment (F64 : Type 0) : Type 0 where
  pub command : ℕ
  pub points : List (GeoPoint F64)

-- `point.command > 10`.
abbrev pub starts_path : ℕ → Bool
starts_path command = ltb 10 command && not (is_negative command)

module _ (fl : Float) where
  -- `f64::from` of an `i16`.
  abbrev pub f64_of_i16 : ℕ → fl.F64
  f64_of_i16 w = if is_negative w then fl.negate (fl.of_nat (2 ^ 16 - w)) else fl.of_nat w

  unfoldable pub state_vector_geo_point : PackedStatePoint → GeoPoint fl.F64
  state_vector_geo_point point = record {
    lon = fl.divide (f64_of_i16 point.lon_minutes) (fl.of_nat 60);
    lat = fl.divide (f64_of_i16 point.lat_minutes) (fl.of_nat 60);
  }

  unfoldable pub path_opens : PackedStatePoint → Option (Option (StateVectorSegment fl.F64))
  unfolding state_vector_geo_point
  path_opens point =
      then_some (starts_path point.command)
        (some (record { command = point.command; points = state_vector_geo_point point ∷ [] }))

  unfoldable pub push_path_point :
      PackedStatePoint → StateVectorSegment fl.F64 → StateVectorSegment fl.F64
  unfolding state_vector_geo_point
  push_path_point point segment = record segment {
    points = segment.points ++ (state_vector_geo_point point ∷ []);
  }

  -- The loop of `vector_dataset`.
  unfoldable pub vector_dataset : List PackedStatePoint → List (StateVectorSegment fl.F64)
  unfolding read_groups path_opens push_path_point
  vector_dataset points = read_groups path_opens push_path_point (λ segment. segment) points

  unfoldable pub vector_point_count : List (StateVectorSegment fl.F64) → ℕ
  vector_point_count segments = sum_lengths (λ segment. segment.points) segments
