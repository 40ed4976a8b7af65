-- ===== src/Assets/Walk.antt =====
-- What the walk over a directory tree collects.
use callbook_rs.Prelude.{
  All, All-append, Bool, Bool-cases, Bytes, List, [], ap, append-nil, append_assoc, arith, bytes_eq,
  bytes_eq_refl, false, refl, sym, true, ◌&&◌, ◌++◌, ◌||◌, ◌∙◌, ◌∷◌, ◌≡◌, inl, inr,
}
use callbook_rs.Assets.{
  PathParts, Children, no_children, directory, regular_file, symlink, special_file, AssetKind,
  AssetMetadata, asset_metadata, collect_files,
}

-- Whether a path leads from the entries of a directory to a regular file, through directories only.
abbrev pub has_file : Children → PathParts → Bool
has_file no_children path = false
has_file (symlink name rest) path = has_file rest path
has_file (special_file name rest) path = has_file rest path
has_file (regular_file name rest) [] = false
has_file (regular_file name rest) (part ∷ []) = bytes_eq name part || has_file rest (part ∷ [])
has_file (regular_file name rest) (part ∷ next ∷ path) = has_file rest (part ∷ next ∷ path)
has_file (directory name inner rest) [] = false
has_file (directory name inner rest) (part ∷ []) = has_file rest (part ∷ [])
has_file (directory name inner rest) (part ∷ next ∷ path) =
    bytes_eq name part && has_file inner (next ∷ path) || has_file rest (part ∷ next ∷ path)

-- An asset is a regular file below the root.
abbrev pub IsFileIn : PathParts → Children → AssetMetadata → Type 0
IsFileIn root children asset =
    (path : PathParts) × (asset.path ≡ root ++ path) × (has_file children path ≡ true)

or_true : (b c : Bool) → c ≡ true → (b || c) ≡ true
or_true true c h = refl
or_true false c h = h

has_file-nil : (tree : Children) → has_file tree [] ≡ false
has_file-nil no_children = refl
has_file-nil (symlink name rest) = has_file-nil rest
has_file-nil (special_file name rest) = has_file-nil rest
has_file-nil (regular_file name rest) = refl
has_file-nil (directory name inner rest) = refl

behind_file :
    (name : Bytes) (rest : Children) (path : PathParts)
    → has_file rest path ≡ true
    → has_file (regular_file name rest) path ≡ true
behind_file name rest [] h = sym (has_file-nil rest) ∙ h
behind_file name rest (part ∷ []) h = or_true (bytes_eq name part) (has_file rest (part ∷ [])) h
behind_file name rest (part ∷ next ∷ path) h = h

behind_directory :
    (name : Bytes) (inner rest : Children) (path : PathParts)
    → has_file rest path ≡ true
    → has_file (directory name inner rest) path ≡ true
behind_directory name inner rest [] h = sym (has_file-nil rest) ∙ h
behind_directory name inner rest (part ∷ []) h = h
behind_directory name inner rest (part ∷ next ∷ path) h =
    or_true (bytes_eq name part && has_file inner (next ∷ path))
      (has_file rest (part ∷ next ∷ path)) h

in_directory :
    (name : Bytes) (inner rest : Children) (path : PathParts)
    → has_file inner path ≡ true
    → has_file (directory name inner rest) (name ∷ path) ≡ true
in_directory name inner rest [] h =
    let no : false ≡ true = sym (has_file-nil inner) ∙ h in absurd (ground arith)
in_directory name inner rest (next ∷ path) h = rw (bytes_eq_refl name, h) refl

IsFileIn-moved :
    (root below front : PathParts) (inner tree : Children)
    → below ≡ root ++ front
    → ((path : PathParts) → has_file inner path ≡ true → has_file tree (front ++ path) ≡ true)
    → (assets : List AssetMetadata) → All (IsFileIn below inner) assets
    → All (IsFileIn root tree) assets
IsFileIn-moved root below front inner tree at leads [] h = tt
IsFileIn-moved root below front inner tree at leads (a ∷ assets) ((path, e, f), hs) = (
  (front ++ path, e ∙ ap (λ r. r ++ path) at ∙ append_assoc root front path, leads path f),
  IsFileIn-moved root below front inner tree at leads assets hs,
)

module _ (matches : PathParts → Bytes → Bool) (kind : AssetKind) (key : Bytes) where
  -- Every file that the walk collects lies below its root, is a regular file, and is reached through
  -- directories only, so no symbolic link is followed.
  pub collect_files-IsFileIn :
      (root : PathParts) (tree : Children)
      → All (IsFileIn root tree) (collect_files matches kind key root tree)
  unfolding collect_files asset_metadata
  collect_files-IsFileIn root no_children = tt
  collect_files-IsFileIn root (symlink name rest) =
      IsFileIn-moved root root [] rest (symlink name rest) (sym (append-nil root)) (λ path h. h)
        (collect_files matches kind key root rest) (collect_files-IsFileIn root rest)
  collect_files-IsFileIn root (special_file name rest) =
      IsFileIn-moved root root [] rest (special_file name rest) (sym (append-nil root))
        (λ path h. h) (collect_files matches kind key root rest) (collect_files-IsFileIn root rest)
  collect_files-IsFileIn root (directory name inner rest) =
      All-append (IsFileIn root (directory name inner rest))
        (collect_files matches kind key (root ++ (name ∷ [])) inner)
        (collect_files matches kind key root rest)
        (IsFileIn-moved root (root ++ (name ∷ [])) (name ∷ []) inner (directory name inner rest)
          refl (λ path h. in_directory name inner rest path h)
          (collect_files matches kind key (root ++ (name ∷ [])) inner)
          (collect_files-IsFileIn (root ++ (name ∷ [])) inner))
        (IsFileIn-moved root root [] rest (directory name inner rest) (sym (append-nil root))
          (λ path h. behind_directory name inner rest path h)
          (collect_files matches kind key root rest) (collect_files-IsFileIn root rest))
  collect_files-IsFileIn root (regular_file name rest) =
      let others =
        IsFileIn-moved root root [] rest (regular_file name rest) (sym (append-nil root))
          (λ path h. behind_file name rest path h) (collect_files matches kind key root rest)
          (collect_files-IsFileIn root rest) in
      elim (Bool-cases (matches root name)) [
        | inl e ↦ rw e ((name ∷ [], refl, rw (bytes_eq_refl name) refl), others)
        | inr e ↦ rw e others
      ]
