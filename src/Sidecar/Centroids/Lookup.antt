-- ===== src/Sidecar/Centroids/Lookup.antt =====
-- What a lookup in the table of country centroids finds.
use callbook_rs.Prelude.{
  Bool, Bytes, List, Option, [], ap, bytes_eq, false, if◌then◌else◌, none, or_else, or_else-none,
  or_else_assoc, refl, some, then_some, true, ◌∙◌, ◌∷◌, ◌≡◌,
}
use callbook_rs.Prelude.Text.{str_trim, str_lines, to_uppercase}
use callbook_rs.Prelude.Map.{get, get-insert}
use callbook_rs.Sidecar.Float.{Float}
use callbook_rs.Sidecar.Centroids.{
  CountryNameCentroid, parse_country_name_centroid, insert_centroid, insert_lines, parse_centroids,
  lookup_centroid,
}

chosen {ℓ} :
    {A : Type ℓ} (b : Bool) (a : A) (o : Option A)
    → (if b then some a else o) ≡ or_else (then_some b a) o
chosen true a o = refl
chosen false a o = refl

module _ (fl : Float) where
  abbrev pub named :
      Bytes → Option (CountryNameCentroid fl.F64) → Option (CountryNameCentroid fl.F64)
  named key none = none
  named key (some centroid) = then_some (bytes_eq key (to_uppercase centroid.name)) centroid

  -- The centroid of the last line that has the name.
  abbrev pub last_named : Bytes → List Bytes → Option (CountryNameCentroid fl.F64)
  last_named key [] = none
  last_named key (line ∷ lines) =
      or_else (last_named key lines) (named key (parse_country_name_centroid fl line))

  get-insert_centroid :
      (key : Bytes) (o : Option (CountryNameCentroid fl.F64))
      (centroids : List (Bytes × CountryNameCentroid fl.F64))
      → get key (insert_centroid fl o centroids) ≡ or_else (named key o) (get key centroids)
  get-insert_centroid key none centroids = refl
  get-insert_centroid key (some centroid) centroids =
      get-insert key (to_uppercase centroid.name) centroid centroids
      ∙ chosen (bytes_eq key (to_uppercase centroid.name)) centroid (get key centroids)

  get-insert_lines :
      (key : Bytes) (lines : List Bytes) (centroids : List (Bytes × CountryNameCentroid fl.F64))
      → get key (insert_lines fl lines centroids)
        ≡ or_else (last_named key lines) (get key centroids)
  unfolding insert_lines
  get-insert_lines key [] centroids = refl
  get-insert_lines key (line ∷ lines) centroids =
      let o = parse_country_name_centroid fl line in
      get-insert_lines key lines (insert_centroid fl o centroids)
      ∙ ap (or_else (last_named key lines)) (get-insert_centroid key o centroids)
      ∙ or_else_assoc (last_named key lines) (named key o) (get key centroids)

  -- A lookup by name, trimmed and in upper case, returns the centroid of the last line of the file
  -- whose country has that name in upper case, and nothing where no line has it.
  pub lookup_centroid-parse_centroids :
      (text name : Bytes)
      → lookup_centroid fl (parse_centroids fl text) name
        ≡ last_named (to_uppercase (str_trim name)) (str_lines text)
  unfolding lookup_centroid parse_centroids get
  lookup_centroid-parse_centroids text name =
      get-insert_lines (to_uppercase (str_trim name)) (str_lines text) []
      ∙ or_else-none (last_named (to_uppercase (str_trim name)) (str_lines text))
