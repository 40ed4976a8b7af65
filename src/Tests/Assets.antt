-- ===== src/Tests/Assets.antt =====
-- The paths of the photo manifest and the walk over a tree of photos.
use callbook_rs.Prelude.{All, [], codes, false, is_empty, map, none, refl, some, true, ◌∷◌, ◌≡◌}
use callbook_rs.Assets.{
  PathParts, Children, no_children, directory, regular_file, symlink, photo,
  safe_manifest_photo_path, collect_callsign_assets, collect_files,
}
use callbook_rs.Assets.Walk.{IsFileIn, collect_files-IsFileIn}
use callbook_rs.Assets.Safe.{IsName, safe_manifest_photo_path-IsName}

abbrev photo_path : PathParts
photo_path = codes "k" ∷ codes "k1a.jpg" ∷ []

safe_path : safe_manifest_photo_path (codes "./k//k1a.jpg") ≡ some photo_path
unfolding safe_manifest_photo_path
safe_path = refl

unsafe_paths :
    (safe_manifest_photo_path (codes "k/../../x") ≡ none)
    × (safe_manifest_photo_path (codes "/x") ≡ none)
    × (safe_manifest_photo_path (codes ".") ≡ none)
unfolding safe_manifest_photo_path
unsafe_paths = (refl, refl, refl)

safe_manifest_photo_path-IsName_example : (is_empty photo_path ≡ false) × All IsName photo_path
safe_manifest_photo_path-IsName_example =
    safe_manifest_photo_path-IsName (codes "./k//k1a.jpg") photo_path safe_path

abbrev photos : Children
photos =
    directory (codes "k") (regular_file (codes "k1a-2.JPG") no_children)
      (symlink (codes "k1a.gif") (regular_file (codes "w1x.png") no_children))

photos_of_k1a :
    map (λ a. a.path) (collect_callsign_assets (codes "photos" ∷ []) photos photo (codes "K1A"))
    ≡ (codes "photos" ∷ codes "k" ∷ codes "k1a-2.JPG" ∷ []) ∷ []
unfolding collect_callsign_assets
photos_of_k1a = refl

collect_files-IsFileIn_example :
    All
      (IsFileIn (codes "photos" ∷ []) photos)
      (collect_files (λ path name. true) photo (codes "K1A") (codes "photos" ∷ []) photos)
collect_files-IsFileIn_example =
    collect_files-IsFileIn (λ path name. true) photo (codes "K1A") (codes "photos" ∷ []) photos
