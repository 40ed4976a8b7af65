-- ===== src/Interest.antt =====
-- crates/callbook/src/interest.rs: the catalogue of interest codes.
pub mod Lookup
use callbook_rs.Prelude.{
  Bool, Bytes, List, Option, [], all, codes, cons_some, get_elem?, if◌then◌else◌, is_ascii_digit,
  is_empty, length, map_option, none, not, some, then_some, ℕ, ◌&&◌, ◌++◌, ◌==◌, ◌>>=◌, ◌∷◌,
}
use callbook_rs.Prelude.Text.{str_trim, str_lines, split_once, strip_prefix}
use callbook_rs.Prelude.Map.{insert, get}
use callbook_rs.Modern.Snapshot.{ResolvedInterest}

pub record InterestDefinition : Type 0 where
  pub code : Bytes
  pub category : Bytes
  pub label : Bytes

-- A key of `by_code`, a `[u8; 4]`, is a text of four bytes.
pub record InterestTable : Type 0 where
  pub definitions : List InterestDefinition
  pub by_code : List (Bytes × ℕ)

-- The variables of the loop in `parse`.
pub record Catalog : Type 0 where
  pub definitions : List InterestDefinition
  pub by_code : List (Bytes × ℕ)
  pub category : Bytes

-- `code_key`.
unfoldable pub code_key : Bytes → Option Bytes
unfolding is_ascii_digit
code_key bytes = then_some (length bytes == 4 && all is_ascii_digit bytes) bytes

unfoldable pub is_definition : Bytes → Bytes → Bool
unfolding is_ascii_digit
is_definition code label = length code == 4 && all is_ascii_digit code && not (is_empty label)

-- The push of a validated definition; the key of its code is the code.
abbrev pub add_definition : Bytes → Bytes → Catalog → Catalog
add_definition code label cat = record cat {
  definitions =
      cat.definitions ++ (record { code = code; category = cat.category; label = label } ∷ []);
  by_code = insert code (length cat.definitions) cat.by_code;
}

abbrev pub visit_definition : Option (Bytes × Bytes) → Catalog → Catalog
visit_definition none cat = cat
visit_definition (some (code, label)) cat =
    if is_definition (str_trim code) (str_trim label)
    then add_definition (str_trim code) (str_trim label) cat
    else cat

abbrev pub visit_content : Bytes → Option Bytes → Catalog → Catalog
visit_content line none cat = visit_definition (split_once b'*' line) cat
visit_content line (some rest) cat = record cat { category = str_trim rest }

-- The body of the loop, on a trimmed line.
unfoldable pub visit_line : Bytes → Catalog → Catalog
unfolding is_definition insert split_once strip_prefix str_trim
visit_line line cat =
    if is_empty line then cat else visit_content line (strip_prefix line (codes "---")) cat

unfoldable pub visit_lines : List Bytes → Catalog → Catalog
unfolding visit_line
visit_lines [] cat = cat
visit_lines (line ∷ lines) cat = visit_lines lines (visit_line (str_trim line) cat)

abbrev pub empty_catalog : Catalog
empty_catalog = record { definitions = []; by_code = []; category = [] }

unfoldable pub parse_interests : Bytes → InterestTable
unfolding str_lines visit_lines
parse_interests text =
    let cat = visit_lines (str_lines text) empty_catalog in
    record { definitions = cat.definitions; by_code = cat.by_code }

unfoldable pub lookup_interest : InterestTable → Bytes → Option InterestDefinition
unfolding code_key get
lookup_interest table code = do
  key ← code_key code
  index ← get key table.by_code
  get_elem? table.definitions index

-- `chunks_exact(4)`, of which those without another byte than digits stay.
unfoldable pub interest_codes_of : Bytes → List Bytes
unfolding is_ascii_digit
interest_codes_of [] = []
interest_codes_of (a ∷ []) = []
interest_codes_of (a ∷ b ∷ []) = []
interest_codes_of (a ∷ b ∷ c ∷ []) = []
interest_codes_of (a ∷ b ∷ c ∷ d ∷ rest) =
    let code = a ∷ b ∷ c ∷ d ∷ [] in
    let others = interest_codes_of rest in if all is_ascii_digit code then code ∷ others else others

-- `ResolvedInterest::from`.
abbrev pub resolved : InterestDefinition → ResolvedInterest
resolved d = record { code = d.code; category = d.category; label = d.label }

unfoldable pub resolve_codes : InterestTable → List Bytes → List ResolvedInterest
unfolding lookup_interest
resolve_codes table [] = []
resolve_codes table (code ∷ codes) =
    cons_some (map_option resolved (lookup_interest table code)) (resolve_codes table codes)

unfoldable pub resolve_raw : InterestTable → Bytes → List ResolvedInterest
unfolding interest_codes_of resolve_codes
resolve_raw table raw = resolve_codes table (interest_codes_of raw)
