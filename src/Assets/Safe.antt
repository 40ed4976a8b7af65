-- ===== src/Assets/Safe.antt =====
-- The paths that the photo manifest leads to, and the files that the walk over a tree finds.
use callbook_rs.Prelude.{
  >>=-eq-some, All, All-append, Bool, Bool-cases, Bytes, List, [], ap, arith, bytes_eq, codes,
  cons_some, false, filter_map, inl, inr, is_empty, none, some, some-injective, subst, ℕ, ◌++◌, ◌∙◌,
  ◌∷◌, ◌≡◌,
}
use callbook_rs.Prelude.Trim.{Fails}
use callbook_rs.Prelude.Text.{cons_first}
use callbook_rs.Prelude.Words.{split_by}
use callbook_rs.Assets.{
  PathParts, Component, root_dir, cur_dir, parent_dir, normal, component_of, is_slash, start_of,
  components, push_components, safe_manifest_photo_path,
}

-- A name in a directory: neither the directory nor the one above, and without a slash.
abbrev pub IsName : Bytes → Type 0
IsName part =
    (is_empty part ≡ false)
    × (bytes_eq part (codes ".") ≡ false)
    × (bytes_eq part (codes "..") ≡ false)
    × All (Fails is_slash) part

abbrev IsNameIn : Component → Type 0
IsNameIn (normal part) = IsName part
IsNameIn root_dir = Unit
IsNameIn cur_dir = Unit
IsNameIn parent_dir = Unit

cons_first-All :
    (p : ℕ → Bool) (b : ℕ) (parts : List Bytes)
    → p b ≡ false
    → All (λ part. All (Fails p) part) parts
    → All (λ part. All (Fails p) part) (cons_first b parts)
cons_first-All p b [] e h = ((e, tt), tt)
cons_first-All p b (part ∷ parts) e (h, hs) = ((e, h), hs)

split_by-All : (p : ℕ → Bool) (s : Bytes) → All (λ part. All (Fails p) part) (split_by p s)
unfolding split_by
split_by-All p [] = (tt, tt)
split_by-All p (b ∷ bs) = elim (Bool-cases (p b)) [
  | inl e ↦ rw e (tt, split_by-All p bs)
  | inr e ↦ rw e (cons_first-All p b (split_by p bs) e (split_by-All p bs))
]

component_of-All :
    (part : Bytes) (rest : List Component)
    → All (Fails is_slash) part
    → All IsNameIn rest
    → All IsNameIn (cons_some (component_of part) rest)
unfolding component_of
component_of-All part rest h hs = elim (Bool-cases (is_empty part)) [
  | inl e ↦ rw e hs
  | inr e ↦ elim (Bool-cases (bytes_eq part (codes "."))) [
    | inl f ↦ rw (e, f) hs
    | inr f ↦ elim (Bool-cases (bytes_eq part (codes ".."))) [
      | inl g ↦ rw (e, f, g) (tt, hs)
      | inr g ↦ rw (e, f, g) ((e, f, g, h), hs)
    ]
  ]
]

filter_map-component_of-All :
    (parts : List Bytes)
    → All (λ part. All (Fails is_slash) part) parts
    → All IsNameIn (filter_map component_of parts)
filter_map-component_of-All [] h = tt
filter_map-component_of-All (part ∷ parts) (h, hs) =
    component_of-All part (filter_map component_of parts) h (filter_map-component_of-All parts hs)

start_of-All : (parts : List Bytes) → All IsNameIn (start_of parts)
start_of-All [] = tt
start_of-All (part ∷ []) = elim (Bool-cases (bytes_eq part (codes "."))) [
  | inl e ↦ rw e (tt, tt)
  | inr e ↦ rw e tt
]
start_of-All (part ∷ next ∷ parts) = elim (Bool-cases (is_empty part)) [
  | inl e ↦ rw e (tt, tt)
  | inr e ↦ elim (Bool-cases (bytes_eq part (codes "."))) [
    | inl f ↦ rw (e, f) (tt, tt)
    | inr f ↦ rw (e, f) tt
  ]
]

components-All : (path : Bytes) → All IsNameIn (components path)
unfolding components
components-All path =
    let parts = split_by is_slash path in
    All-append IsNameIn (start_of parts) (filter_map component_of parts) (start_of-All parts)
      (filter_map-component_of-All parts (split_by-All is_slash path))

push_components-All :
    (cs : List Component) (out parts : PathParts)
    → All IsNameIn cs
    → All IsName out
    → push_components cs out ≡ some parts
    → All IsName parts
unfolding push_components
push_components-All [] out parts h ho e = subst (All IsName) (some-injective e) ho
push_components-All (normal part ∷ cs) out parts (h, hs) ho e =
    push_components-All cs (out ++ (part ∷ [])) parts hs
      (All-append IsName out (part ∷ []) ho (h, tt)) e
push_components-All (cur_dir ∷ cs) out parts (h, hs) ho e = push_components-All cs out parts hs ho e
push_components-All (root_dir ∷ cs) out parts h ho e = absurd (ground (arith, e))
push_components-All (parent_dir ∷ cs) out parts h ho e = absurd (ground (arith, e))

-- A path that the photo manifest leads to, joined to the directory of the photos, stays below it: it
-- has a part, and each of its parts is a name that is not empty, not `.` and not `..`, and has no
-- slash.
pub safe_manifest_photo_path-IsName :
    (file : Bytes) (parts : PathParts)
    → safe_manifest_photo_path file ≡ some parts
    → (is_empty parts ≡ false) × All IsName parts
unfolding safe_manifest_photo_path
safe_manifest_photo_path-IsName file parts h =
    let (out, e, f) = >>=-eq-some (push_components (components file) []) _ h in
    elim (Bool-cases (is_empty out)) [
      | inl g ↦ let no : none ≡ some parts = rw g at f in absurd (ground arith)
      | inr g ↦
          let same : out ≡ parts = some-injective (rw g at f) in
          (
            subst (λ ps. is_empty ps ≡ false) same g,
            push_components-All (components file) [] parts (components-All file) tt
                (e ∙ ap some same),
          )
    ]
