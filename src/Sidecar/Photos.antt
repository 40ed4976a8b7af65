-- ===== src/Sidecar/Photos.antt =====
-- `PhotoCatalog`: the photo manifest `photos/PHOTOS.TXT`.
use callbook_rs.Prelude.{
  Bool, Bytes, List, Option, [], bytes_eq, filter, filter_map, if◌then◌else◌, is_ascii_whitespace,
  is_empty, map, none, not, some, then_some, to_ascii_uppercase, ℕ, ◌==◌, ◌||◌, ◌∷◌,
}
use callbook_rs.Prelude.Text.{str_trim, str_lines, to_uppercase}
use callbook_rs.Prelude.Words.{split_by}

pub record PhotoManifestEntry : Type 0 where
  pub callsign : Bytes
  pub file : Option Bytes

-- `ch.is_ascii_whitespace() || matches!(ch, ',' | '|')`.
unfoldable pub separates : ℕ → Bool
unfolding is_ascii_whitespace
separates b = is_ascii_whitespace b || b == b',' || b == b'|'

-- The first part that is not blank, trimmed.
unfoldable pub first_file : List Bytes → Option Bytes
unfolding str_trim
first_file [] = none
first_file (part ∷ parts) =
    let rest = first_file parts in if is_empty (str_trim part) then rest else some (str_trim part)

unfoldable pub entry_of : List Bytes → Option PhotoManifestEntry
unfolding first_file str_trim to_ascii_uppercase
entry_of [] = none
entry_of (part ∷ parts) =
    let callsign = to_uppercase (str_trim part) in
    then_some (not (is_empty callsign)) (record { callsign = callsign; file = first_file parts })

-- The body of the loop, on a trimmed line.
unfoldable pub parse_photo_line : Bytes → Option PhotoManifestEntry
unfolding entry_of split_by separates
parse_photo_line [] = none
parse_photo_line (b ∷ line) = if b == b'#' then none else entry_of (split_by separates (b ∷ line))

unfoldable pub parse_photo_manifest : Bytes → List PhotoManifestEntry
unfolding parse_photo_line str_lines str_trim
parse_photo_manifest text = filter_map parse_photo_line (map str_trim (str_lines text))

-- `PhotoCatalog::lookup`.
unfoldable pub lookup_photos : List PhotoManifestEntry → Bytes → List PhotoManifestEntry
unfolding bytes_eq str_trim to_ascii_uppercase
lookup_photos entries callsign =
    filter (λ entry. bytes_eq entry.callsign (to_uppercase (str_trim callsign))) entries
