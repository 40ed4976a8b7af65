-- ===== src/Prelude/Words.antt =====
-- Methods of `str` that take a text apart: `split_whitespace`, `split` and `rfind`.
use callbook_rs.Prelude.{
  Bool, Bytes, List, Option, [], false, if◌then◌else◌, map_option, none, not, or_else, then_some, ℕ,
  ◌++◌, ◌+◌, ◌==◌, ◌∷◌,
}
use callbook_rs.Prelude.Text.{chars, is_whitespace, cons_first}

-- Whether the characters start inside a word.
abbrev pub starts_word : List Bytes → Bool
starts_word [] = false
starts_word (c ∷ cs) = not (is_whitespace c)

abbrev pub extend_word : Bytes → List Bytes → List Bytes
extend_word c [] = c ∷ []
extend_word c (w ∷ ws) = (c ++ w) ∷ ws

unfoldable pub words : List Bytes → List Bytes
unfolding is_whitespace
words [] = []
words (c ∷ cs) =
    let rest = words cs in
    if is_whitespace c then rest else (if starts_word cs then extend_word c rest else c ∷ rest)

unfoldable pub split_whitespace : Bytes → List Bytes
unfolding words chars
split_whitespace s = words (chars s)

-- `split` at the ASCII characters that pass a test.
unfoldable pub split_by : (ℕ → Bool) → Bytes → List Bytes
split_by p [] = [] ∷ []
split_by p (b ∷ bs) = let rest = split_by p bs in if p b then [] ∷ rest else cons_first b rest

-- `rfind` of an ASCII character.
unfoldable pub rfind : ℕ → Bytes → Option ℕ
rfind byte [] = none
rfind byte (b ∷ bs) = or_else (map_option (λ i. i + 1) (rfind byte bs)) (then_some (b == byte) 0)
