-- ===== src/Interest/Lookup.antt =====
-- The map of codes against the list of definitions.
use callbook_rs.Prelude.{
  Bool, Bool-cases, Bytes, List, Option, Option-cases, [], arith, bytes_eq, codes, false, get_elem?,
  if◌then◌else◌, inl, inr, is_empty, length, none, or_else, refl, some, subst, suc, sym, then_some,
  true, zero, ℕ, ◌++◌, ◌>>=◌, ◌∙◌, ◌∷◌, ◌≡◌,
}
use callbook_rs.Prelude.Map.{insert, get, get-insert}
use callbook_rs.Prelude.Text.{str_trim, str_lines, split_once, strip_prefix}
use callbook_rs.Interest.{
  InterestDefinition, Catalog, code_key, is_definition, add_definition, visit_definition,
  visit_content, visit_line, visit_lines, empty_catalog, parse_interests, lookup_interest,
}

-- The last definition of a code.
abbrev pub last_with : Bytes → List InterestDefinition → Option InterestDefinition
last_with code [] = none
last_with code (d ∷ ds) = or_else (last_with code ds) (then_some (bytes_eq code d.code) d)

last_with-append :
    (code : Bytes) (ds : List InterestDefinition) (d : InterestDefinition)
    → last_with code (ds ++ (d ∷ [])) ≡ (if bytes_eq code d.code then some d else last_with code ds)
last_with-append code [] d = elim (Bool-cases (bytes_eq code d.code)) [
  | inl e ↦ rw e refl
  | inr e ↦ rw e refl
]
last_with-append code (x ∷ ds) d = elim (Bool-cases (bytes_eq code d.code)) [
  | inl e ↦
      let later : last_with code (ds ++ (d ∷ [])) ≡ some d =
        last_with-append code ds d ∙ rw e refl in
      rw (later, e) refl
  | inr e ↦
      let later : last_with code (ds ++ (d ∷ [])) ≡ last_with code ds =
        last_with-append code ds d ∙ rw e refl in
      rw (later, e) refl
]

get_elem?-append :
    (ds es : List InterestDefinition) (i : ℕ) (d : InterestDefinition)
    → get_elem? ds i ≡ some d
    → get_elem? (ds ++ es) i ≡ some d
get_elem?-append [] es i d h = absurd (ground (arith, h))
get_elem?-append (x ∷ ds) es zero d h = h
get_elem?-append (x ∷ ds) es (suc i) d h = get_elem?-append ds es i d h

get_elem?-length :
    (ds : List InterestDefinition) (d : InterestDefinition)
    → get_elem? (ds ++ (d ∷ [])) (length ds) ≡ some d
get_elem?-length [] d = refl
get_elem?-length (x ∷ ds) d = get_elem?-length ds d

-- The map's entry for a code is the index of its last definition.
abbrev Agrees : List InterestDefinition → Bytes → Option ℕ → Type 0
Agrees ds code none = last_with code ds ≡ none
Agrees ds code (some i) =
    (d : InterestDefinition) × (get_elem? ds i ≡ some d) × (last_with code ds ≡ some d)

abbrev IsIndexed : Catalog → Type 0
IsIndexed cat = (code : Bytes) → Agrees cat.definitions code (get code cat.by_code)

Agrees-later :
    (ds : List InterestDefinition) (d : InterestDefinition) (code : Bytes) (o : Option ℕ)
    → bytes_eq code d.code ≡ false
    → Agrees ds code o
    → Agrees (ds ++ (d ∷ [])) code o
Agrees-later ds d code none e h = last_with-append code ds d ∙ rw e h
Agrees-later ds d code (some i) e (x, at, last) =
    (x, get_elem?-append ds (d ∷ []) i x at, last_with-append code ds d ∙ rw e last)

add_definition-IsIndexed :
    (code label : Bytes) (cat : Catalog) → IsIndexed cat → IsIndexed (add_definition code label cat)
add_definition-IsIndexed code label cat h k =
    let d : InterestDefinition = record { code = code; category = cat.category; label = label } in
    let ds = cat.definitions in
    let found = get-insert k code (length ds) cat.by_code in
    elim (Bool-cases (bytes_eq k code)) [
      | inl e ↦
          let now : get k (insert code (length ds) cat.by_code) ≡ some (length ds) =
            found ∙ rw e refl in
          subst (Agrees (ds ++ (d ∷ [])) k) (sym now)
            (d, get_elem?-length ds d, last_with-append k ds d ∙ rw e refl)
      | inr e ↦
          let now : get k (insert code (length ds) cat.by_code) ≡ get k cat.by_code =
            found ∙ rw e refl in
          subst (Agrees (ds ++ (d ∷ [])) k) (sym now)
            (Agrees-later ds d k (get k cat.by_code) e (h k))
    ]

visit_definition-IsIndexed :
    (parts : Option (Bytes × Bytes)) (cat : Catalog)
    → IsIndexed cat
    → IsIndexed (visit_definition parts cat)
visit_definition-IsIndexed none cat h = h
visit_definition-IsIndexed (some (code, label)) cat h =
    elim (Bool-cases (is_definition (str_trim code) (str_trim label))) [
      | inl e ↦ rw e (add_definition-IsIndexed (str_trim code) (str_trim label) cat h)
      | inr e ↦ rw e h
    ]

visit_content-IsIndexed :
    (line : Bytes) (heading : Option Bytes) (cat : Catalog)
    → IsIndexed cat
    → IsIndexed (visit_content line heading cat)
visit_content-IsIndexed line none cat h = visit_definition-IsIndexed (split_once b'*' line) cat h
visit_content-IsIndexed line (some rest) cat h = h

visit_line-IsIndexed :
    (line : Bytes) (cat : Catalog) → IsIndexed cat → IsIndexed (visit_line line cat)
unfolding visit_line
visit_line-IsIndexed line cat h =
    let content = visit_content line (strip_prefix line (codes "---")) cat in
    let both : (b : Bool) → IsIndexed (if b then cat else content) = λ b.
      elim b as (λ k. IsIndexed (if k then cat else content)) [
        | true ↦ h
        | false ↦ visit_content-IsIndexed line (strip_prefix line (codes "---")) cat h
      ] in
    both (is_empty line)

visit_lines-IsIndexed :
    (lines : List Bytes) (cat : Catalog) → IsIndexed cat → IsIndexed (visit_lines lines cat)
unfolding visit_lines
visit_lines-IsIndexed [] cat h = h
visit_lines-IsIndexed (line ∷ lines) cat h =
    visit_lines-IsIndexed lines (visit_line (str_trim line) cat)
      (visit_line-IsIndexed (str_trim line) cat h)

found-Agrees :
    (ds : List InterestDefinition) (code : Bytes) (o : Option ℕ)
    → Agrees ds code o
    → (o >>= get_elem? ds) ≡ last_with code ds
found-Agrees ds code none h = sym h
found-Agrees ds code (some i) (d, at, last) = at ∙ sym last

-- On a parsed catalogue, looking up a text of four digits returns the last definition with that
-- code, or nothing if there is none; looking up any other text returns nothing.
pub lookup_interest-parse_interests :
    (text code : Bytes)
    → lookup_interest (parse_interests text) code
      ≡ (code_key code >>= λ key. last_with key (parse_interests text).definitions)
unfolding lookup_interest parse_interests get
lookup_interest-parse_interests text code =
    let cat = visit_lines (str_lines text) empty_catalog in
    let indexed = visit_lines-IsIndexed (str_lines text) empty_catalog (λ k. refl) in
    elim (Option-cases (code_key code)) [
      | inl e ↦ rw e refl
      | inr (key, e) ↦ rw e (found-Agrees cat.definitions key (get key cat.by_code) (indexed key))
    ]
