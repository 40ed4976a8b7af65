-- ===== src/Assets.antt =====
-- The assets of db.rs: the paths of the photo manifest, and the files of a callsign or a country in a
-- directory tree. The tree that `read_dir` walks is an argument; a path is the list of its parts.
pub mod Safe
pub mod Walk
use callbook_rs.Prelude.{
  Bool, Bytes, List, Option, [], bytes_eq, codes, drop, false, filter_map, if◌then◌else◌,
  is_ascii_uppercase, is_empty, leb, length, ltb, map, none, not, some, starts_with, take,
  then_some, to_ascii_uppercase, true, unwrap_or, ℕ, ◌&&◌, ◌++◌, ◌+◌, ◌-◌, ◌==◌, ◌>>=◌, ◌||◌, ◌∷◌,
}
use callbook_rs.Prelude.Text.{to_uppercase, head_before}
use callbook_rs.Prelude.Order.{lt_bytes}
use callbook_rs.Error.{Result, err, ok}
use callbook_rs.Callsign.{Callsign, parse, as_str}
use callbook_rs.Prelude.Words.{split_by, rfind}

abbrev pub PathParts : Type 0
PathParts = List Bytes

-- `Component`; there is no prefix on Unix.
pub data Component : Type 0 where
  root_dir cur_dir parent_dir : Component
  normal : Bytes → Component

unfoldable pub component_of : Bytes → Option Component
unfolding bytes_eq
component_of part =
    if is_empty part || bytes_eq part (codes ".")
    then none
    else if bytes_eq part (codes "..")
    then some parent_dir
    else some (normal part)

abbrev pub is_slash : ℕ → Bool
is_slash b = b == b'/'

abbrev pub start_of : List Bytes → List Component
start_of [] = []
start_of (part ∷ []) = if bytes_eq part (codes ".") then cur_dir ∷ [] else []
start_of (part ∷ next ∷ parts) =
    if is_empty part then root_dir ∷ [] else if bytes_eq part (codes ".") then cur_dir ∷ [] else []

-- `Path::components` of a Unix path: `.` counts only at the start, and repeated slashes as one.
unfoldable pub components : Bytes → List Component
unfolding component_of split_by bytes_eq
components path =
    let parts = split_by is_slash path in start_of parts ++ filter_map component_of parts

-- The loop of `safe_manifest_photo_path`, with what has been pushed.
unfoldable pub push_components : List Component → PathParts → Option PathParts
push_components [] out = some out
push_components (normal part ∷ rest) out = push_components rest (out ++ (part ∷ []))
push_components (cur_dir ∷ rest) out = push_components rest out
push_components (root_dir ∷ rest) out = none
push_components (parent_dir ∷ rest) out = none

unfoldable pub safe_manifest_photo_path : Bytes → Option PathParts
unfolding push_components components
safe_manifest_photo_path file =
    push_components (components file) [] >>= λ out. then_some (not (is_empty out)) out

-- The entries of a directory that can be read; one that cannot has none. A file whose name is not
-- UTF-8 is passed over, as a special file is.
pub data Children : Type 0 where
  no_children : Children
  directory : Bytes → Children → Children → Children
  regular_file symlink special_file : Bytes → Children → Children

pub data AssetKind : Type 0 where
  biography photo flag country_map sidecar_data : AssetKind

abbrev pub cmp_rank : AssetKind → ℕ
cmp_rank biography = 0
cmp_rank photo = 1
cmp_rank flag = 2
cmp_rank country_map = 3
cmp_rank sidecar_data = 4

pub record AssetMetadata : Type 0 where
  pub kind : AssetKind
  pub key : Bytes
  pub media_type : Bytes
  pub path : PathParts

abbrev pub parted_at : Bytes → Option ℕ → Bytes × Option Bytes
parted_at name none = (name, none)
parted_at name (some i) = if i == 0 then (name, none) else (take i name, some (drop (i + 1) name))

-- `Path::file_stem` and `Path::extension` of a file's name.
unfoldable pub stem_and_extension : Bytes → Bytes × Option Bytes
unfolding rfind
stem_and_extension name = parted_at name (rfind b'.' name)

unfoldable pub to_ascii_lowercase : ℕ → ℕ
unfolding is_ascii_uppercase
to_ascii_lowercase b = if is_ascii_uppercase b then b + 32 else b

abbrev pub to_lowercase : Bytes → Bytes
to_lowercase s = map to_ascii_lowercase s

unfoldable pub media_type_of : Bytes → Bytes
unfolding bytes_eq
media_type_of extension =
    if bytes_eq extension (codes "txt")
    then codes "text/plain"
    else if bytes_eq extension (codes "zip")
    then codes "application/zip"
    else if bytes_eq extension (codes "jpg") || bytes_eq extension (codes "jpeg")
    then codes "image/jpeg"
    else if bytes_eq extension (codes "gif")
    then codes "image/gif"
    else if bytes_eq extension (codes "bmp")
    then codes "image/bmp"
    else if bytes_eq extension (codes "png")
    then codes "image/png"
    else codes "application/octet-stream"

unfoldable pub asset_metadata : AssetKind → Bytes → PathParts → Bytes → AssetMetadata
unfolding media_type_of stem_and_extension to_ascii_lowercase
asset_metadata kind key root name = record {
  kind = kind;
  key = key;
  media_type = media_type_of (to_lowercase (unwrap_or (stem_and_extension name).1 []));
  path = root ++ (name ∷ []);
}

-- The walk that the three collectors of photos and biographies share, with their test on a file's
-- path and name: directories are entered, and symbolic links are not followed.
module _ (matches : PathParts → Bytes → Bool) (kind : AssetKind) (key : Bytes) where
  unfoldable pub collect_files : PathParts → Children → List AssetMetadata
  unfolding asset_metadata
  collect_files root no_children = []
  collect_files root (directory name inner rest) =
      collect_files (root ++ (name ∷ [])) inner ++ collect_files root rest
  collect_files root (symlink name rest) = collect_files root rest
  collect_files root (special_file name rest) = collect_files root rest
  collect_files root (regular_file name rest) =
      let others = collect_files root rest in
      if matches root name then asset_metadata kind key root name ∷ others else others

abbrev pub stem_matches : AssetKind → Bytes → Bytes → Bool
stem_matches biography callsign stem = bytes_eq stem callsign
stem_matches photo callsign stem = bytes_eq stem callsign || starts_with stem callsign
stem_matches kind callsign stem = false

unfoldable pub collect_callsign_assets :
    PathParts → Children → AssetKind → Bytes → List AssetMetadata
unfolding collect_files stem_and_extension to_ascii_uppercase bytes_eq starts_with
collect_callsign_assets root children kind callsign =
    collect_files
      (λ path name. stem_matches kind callsign (to_uppercase (stem_and_extension name).0)) kind
      callsign root children

-- `eq_ignore_ascii_case` of strings.
abbrev pub same_ignoring_case : Bytes → Bytes → Bool
same_ignoring_case a b = bytes_eq (to_lowercase a) (to_lowercase b)

unfoldable pub collect_named_photo_assets :
    PathParts → Children → Bytes → Bytes → List AssetMetadata
unfolding collect_files bytes_eq to_ascii_lowercase
collect_named_photo_assets root children callsign file_name =
    collect_files (λ path name. same_ignoring_case name file_name) photo callsign root children

unfoldable pub parts_eq : PathParts → PathParts → Bool
unfolding bytes_eq to_ascii_lowercase
parts_eq [] [] = true
parts_eq (x ∷ xs) (y ∷ ys) = same_ignoring_case x y && parts_eq xs ys
parts_eq xs ys = false

-- `path_ends_with_components_ignore_ascii_case`, on paths of normal components.
unfoldable pub path_ends_with : PathParts → PathParts → Bool
unfolding parts_eq
path_ends_with path suffix =
    not (is_empty suffix)
    && leb (length suffix) (length path)
    && parts_eq (drop (length path - length suffix) path) suffix

unfoldable pub collect_relative_suffix_photo_assets :
    PathParts → Children → Bytes → PathParts → List AssetMetadata
unfolding collect_files path_ends_with
collect_relative_suffix_photo_assets root children callsign relative =
    collect_files (λ path name. path_ends_with (path ++ (name ∷ [])) relative) photo callsign root
      children

unfoldable pub collect_manifest_photo_fallback :
    PathParts → Children → Bytes → PathParts → List AssetMetadata
unfolding collect_named_photo_assets collect_relative_suffix_photo_assets
collect_manifest_photo_fallback root children callsign (file_name ∷ []) =
    collect_named_photo_assets root children callsign file_name
collect_manifest_photo_fallback root children callsign relative =
    collect_relative_suffix_photo_assets root children callsign relative

-- `collect_country_assets` does not enter directories.
unfoldable pub collect_country_assets :
    PathParts → Children → AssetKind → Bytes → List AssetMetadata
unfolding asset_metadata stem_and_extension head_before to_ascii_uppercase bytes_eq
collect_country_assets root no_children kind code = []
collect_country_assets root (directory name inner rest) kind code =
    collect_country_assets root rest kind code
collect_country_assets root (symlink name rest) kind code =
    collect_country_assets root rest kind code
collect_country_assets root (special_file name rest) kind code =
    collect_country_assets root rest kind code
collect_country_assets root (regular_file name rest) kind code =
    let others = collect_country_assets root rest kind code in
    let stem = to_uppercase (head_before b'-' (stem_and_extension name).0) in
    if bytes_eq stem (to_uppercase code)
    then asset_metadata kind code root name ∷ others
    else others

-- The order of paths, by their parts.
unfoldable pub parts_lt : PathParts → PathParts → Bool
unfolding lt_bytes bytes_eq
parts_lt xs [] = false
parts_lt [] (y ∷ ys) = true
parts_lt (x ∷ xs) (y ∷ ys) = lt_bytes x y || bytes_eq x y && parts_lt xs ys

unfoldable pub asset_lt : AssetMetadata → AssetMetadata → Bool
unfolding parts_lt
asset_lt a b =
    ltb (cmp_rank a.kind) (cmp_rank b.kind)
    || cmp_rank a.kind == cmp_rank b.kind && parts_lt a.path b.path

unfoldable pub insert_asset : AssetMetadata → List AssetMetadata → List AssetMetadata
unfolding asset_lt
insert_asset asset [] = asset ∷ []
insert_asset asset (item ∷ items) =
    let rest = insert_asset asset items in
    if asset_lt item asset then item ∷ rest else asset ∷ item ∷ items

-- `sort_by` is stable, so its result is that of inserting each element before its equals.
unfoldable pub sort_assets : List AssetMetadata → List AssetMetadata
unfolding insert_asset
sort_assets [] = []
sort_assets (asset ∷ items) = insert_asset asset (sort_assets items)

-- The directory `ham0` with the trees of its biographies and photos.
pub record AssetTree : Type 0 where
  pub dir : PathParts
  pub bios : Children
  pub photos : Children

abbrev pub assets_in : AssetTree → Bytes → List AssetMetadata
assets_in tree key =
    collect_callsign_assets (tree.dir ++ (codes "bios" ∷ [])) tree.bios biography key
    ++ collect_callsign_assets (tree.dir ++ (codes "photos" ∷ [])) tree.photos photo key

abbrev pub assets_of : AssetTree → Result Callsign → List AssetMetadata
assets_of tree (err why) = []
assets_of tree (ok callsign) = sort_assets (assets_in tree (as_str callsign))

-- `callsign_assets`; without the files of a V2 shard there are none.
unfoldable pub callsign_assets : Option AssetTree → Bytes → List AssetMetadata
unfolding sort_assets collect_callsign_assets parse as_str
callsign_assets none callsign = []
callsign_assets (some tree) callsign = assets_of tree (parse callsign)
