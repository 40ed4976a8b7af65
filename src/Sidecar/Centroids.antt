-- ===== src/Sidecar/Centroids.antt =====
-- `CountryNameTable`: the country centroids of `countrys.nam`.
pub mod Lookup
use callbook_rs.Prelude.{
  Bool, Bytes, List, Option, [], if◌then◌else◌, is_empty, leb, map, map_option, none, slice, take,
  then_some, to_ascii_uppercase, ℕ, ◌&&◌, ◌+◌, ◌==◌, ◌>>=◌, ◌||◌, ◌∷◌, some,
}
use callbook_rs.Prelude.Text.{str_trim, str_lines, to_uppercase}
use callbook_rs.Prelude.Words.{split_by, rfind}
use callbook_rs.Prelude.Map.{insert, get}
use callbook_rs.Sidecar.Float.{Float}
use callbook_rs.Sidecar.Boundary.{GeoPoint}

pub record CountryNameCentroid (F64 : Type 0) : Type 0 where
  pub name : Bytes
  pub location : GeoPoint F64

module _ (fl : Float) where
  -- `(-limit..=limit).contains`.
  abbrev pub is_within : ℕ → fl.F64 → Bool
  is_within limit x = fl.le_f64 (fl.negate (fl.of_nat limit)) x && fl.le_f64 x (fl.of_nat limit)

  abbrev pub location_of : fl.F64 → fl.F64 → Option (GeoPoint fl.F64)
  location_of lat lon =
      then_some (fl.is_finite lat && fl.is_finite lon && is_within 90 lat && is_within 180 lon)
        (record { lon = lon; lat = lat })

  abbrev pub parse_location : List Bytes → Option (GeoPoint fl.F64)
  parse_location (p0 ∷ p1 ∷ parts) =
      fl.parse_f64 p0 >>= λ lat. fl.parse_f64 p1 >>= λ lon. location_of lat lon
  parse_location parts = none

  unfoldable pub centroid_between : Bytes → ℕ → ℕ → Option (CountryNameCentroid fl.F64)
  unfolding str_trim split_by
  centroid_between line opening closing =
      let name = str_trim (take opening line) in
      if leb closing opening || is_empty name
      then none
      else map_option (λ location. record { name = name; location = location })
          (parse_location
            (map str_trim (split_by (λ b. b == b',') (slice line (opening + 1) closing))))

  unfoldable pub parse_country_name_centroid : Bytes → Option (CountryNameCentroid fl.F64)
  unfolding centroid_between rfind str_trim
  parse_country_name_centroid text =
      let line = str_trim text in
      rfind b'(' line >>= λ opening.
      rfind b')' line >>= λ closing. centroid_between line opening closing

  abbrev pub insert_centroid :
      Option (CountryNameCentroid fl.F64)
      → List (Bytes × CountryNameCentroid fl.F64)
      → List (Bytes × CountryNameCentroid fl.F64)
  insert_centroid none centroids = centroids
  insert_centroid (some centroid) centroids = insert (to_uppercase centroid.name) centroid centroids

  -- The loop of `CountryNameTable::parse`.
  unfoldable pub insert_lines :
      List Bytes
      → List (Bytes × CountryNameCentroid fl.F64)
      → List (Bytes × CountryNameCentroid fl.F64)
  unfolding parse_country_name_centroid insert to_ascii_uppercase
  insert_lines [] centroids = centroids
  insert_lines (line ∷ lines) centroids =
      insert_lines lines (insert_centroid (parse_country_name_centroid line) centroids)

  unfoldable pub parse_centroids : Bytes → List (Bytes × CountryNameCentroid fl.F64)
  unfolding insert_lines str_lines
  parse_centroids text = insert_lines (str_lines text) []

  unfoldable pub lookup_centroid :
      List (Bytes × CountryNameCentroid fl.F64) → Bytes → Option (CountryNameCentroid fl.F64)
  unfolding get str_trim to_ascii_uppercase
  lookup_centroid centroids name = get (to_uppercase (str_trim name)) centroids
