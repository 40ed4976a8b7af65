-- ===== src/Prelude/Text.antt =====
-- Methods of `str` on the UTF-8 bytes of the text.
pub mod All
use callbook_rs.Prelude.{
  ==_refl, Bool, Bool-cases, Bytes, List, Option, Option-cases, [], false, if◌then◌else◌, inl, inr,
  is_empty, leb, map, map_option, none, refl, some, starts_with, to_ascii_uppercase, ℕ, ◌&&◌, ◌++◌,
  ◌+◌, ◌==◌, ◌||◌, ◌∷◌, ◌≡◌,
}
use callbook_rs.Prelude.Trim.{trim}

-- A byte inside a character of several bytes.
abbrev pub is_continuation : ℕ → Bool
is_continuation b = leb 0x80 b && leb b 0xbf

abbrev pub starts_inside : Bytes → Bool
starts_inside [] = false
starts_inside (b ∷ bs) = is_continuation b

abbrev pub attach : ℕ → List Bytes → List Bytes
attach b [] = (b ∷ []) ∷ []
attach b (c ∷ cs) = if starts_inside c then (b ∷ c) ∷ cs else (b ∷ []) ∷ c ∷ cs

-- The characters, each as its bytes.
unfoldable pub chars : Bytes → List Bytes
chars [] = []
chars (b ∷ bs) = attach b (chars bs)

unfoldable pub concat : List Bytes → Bytes
concat [] = []
concat (c ∷ cs) = c ++ concat cs

-- `char::is_whitespace`: the characters of the property White_Space.
unfoldable pub is_whitespace : Bytes → Bool
is_whitespace [] = false
is_whitespace (a ∷ []) = leb 0x09 a && leb a 0x0d || a == 0x20
is_whitespace (a ∷ b ∷ []) = a == 0xc2 && (b == 0x85 || b == 0xa0)
is_whitespace (a ∷ b ∷ c ∷ []) =
    a == 0xe1 && b == 0x9a && c == 0x80
    || a == 0xe2 && b == 0x80 && (leb 0x80 c && leb c 0x8a || c == 0xa8 || c == 0xa9 || c == 0xaf)
    || a == 0xe2 && b == 0x81 && c == 0x9f
    || a == 0xe3 && b == 0x80 && c == 0x80
is_whitespace (a ∷ b ∷ c ∷ d ∷ ds) = false

-- `str::trim`.
unfoldable pub str_trim : Bytes → Bytes
unfolding chars concat is_whitespace
str_trim s = concat (trim is_whitespace (chars s))

-- `to_ascii_uppercase` of a string.
abbrev pub to_uppercase : Bytes → Bytes
to_uppercase s = map to_ascii_uppercase s

abbrev pub cons_first : ℕ → List Bytes → List Bytes
cons_first b [] = (b ∷ []) ∷ []
cons_first b (l ∷ ls) = (b ∷ l) ∷ ls

-- `split_inclusive('\n')`.
unfoldable pub split_inclusive : Bytes → List Bytes
split_inclusive [] = []
split_inclusive (b ∷ bs) =
    let rest = split_inclusive bs in if b == 0x0a then (b ∷ []) ∷ rest else cons_first b rest

unfoldable pub strip_suffix : ℕ → Bytes → Option Bytes
strip_suffix b [] = none
strip_suffix b (x ∷ []) = if x == b then some [] else none
strip_suffix b (x ∷ y ∷ ys) = map_option (λ r. x ∷ r) (strip_suffix b (y ∷ ys))

abbrev pub or_self {ℓ} : {A : Type ℓ} → A → Option A → A
or_self a none = a
or_self a (some b) = b

abbrev pub line_or : Bytes → Option Bytes → Bytes
line_or l none = l
line_or l (some body) = or_self body (strip_suffix 0x0d body)

-- A line ends at a line feed, with the carriage return in front of it.
abbrev pub line_of : Bytes → Bytes
line_of l = line_or l (strip_suffix 0x0a l)

unfoldable pub str_lines : Bytes → List Bytes
unfolding split_inclusive strip_suffix
str_lines s = map line_of (split_inclusive s)

abbrev pub before_and_after : ℕ → Option (Bytes × Bytes) → Option (Bytes × Bytes)
before_and_after b found = map_option (λ parts. (b ∷ parts.0, parts.1)) found

-- `split_once` at an ASCII character, or at a byte of a slice.
unfoldable pub split_once : ℕ → Bytes → Option (Bytes × Bytes)
split_once byte [] = none
split_once byte (b ∷ bs) =
    let rest = before_and_after b (split_once byte bs) in if b == byte then some ([], bs) else rest

abbrev pub head_or : Bytes → Option (Bytes × Bytes) → Bytes
head_or s none = s
head_or s (some parts) = parts.0

-- `split_once(byte).map_or(text, |(head, _)| head)`.
unfoldable pub head_before : ℕ → Bytes → Bytes
unfolding split_once
head_before byte s = head_or s (split_once byte s)

pub head_before-cons :
    (byte b : ℕ) (bs : Bytes)
    → head_before byte (b ∷ bs) ≡ (if b == byte then [] else b ∷ head_before byte bs)
unfolding head_before split_once
head_before-cons byte b bs = elim (Bool-cases (b == byte)) [
  | inl e ↦ rw e refl
  | inr e ↦ elim (Option-cases (split_once byte bs)) [
    | inl f ↦ rw (e, f) refl
    | inr (parts, f) ↦ rw (e, f) refl
  ]
]

-- A head has no separator, so splitting in front of one finds it.
pub split_once-head_before :
    (b : ℕ) (s rest : Bytes)
    → split_once b (head_before b s ++ (b ∷ rest)) ≡ some (head_before b s, rest)
unfolding split_once head_before
split_once-head_before b [] rest = rw (==_refl b) refl
split_once-head_before b (x ∷ s) rest = elim (Bool-cases (x == b)) [
  | inl e ↦ rw (head_before-cons b x s, e, ==_refl b) refl
  | inr e ↦ rw (head_before-cons b x s, e, e, split_once-head_before b s rest) refl
]

-- `str::find` and `slice::position` for a text.
unfoldable pub find : Bytes → Bytes → Option ℕ
unfolding starts_with
find [] pattern = if is_empty pattern then some 0 else none
find (b ∷ bs) pattern =
    let rest = map_option (λ i. i + 1) (find bs pattern) in
    if starts_with (b ∷ bs) pattern then some 0 else rest

-- `strip_prefix`.
unfoldable pub strip_prefix : Bytes → Bytes → Option Bytes
strip_prefix s [] = some s
strip_prefix [] (p ∷ ps) = none
strip_prefix (b ∷ bs) (p ∷ ps) = let rest = strip_prefix bs ps in if b == p then rest else none
