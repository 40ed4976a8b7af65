-- ===== src/Cipher/Score.antt =====
-- `score_candidate` of v2_dat.rs and its `i32` arithmetic.
use callbook_rs.Prelude.{
  Bool, Bytes, List, Option, [], arith, drop, filter, if◌then◌else◌, is_empty, leb, length, ltb,
  none, not, some, starts_with, to_ascii_uppercase, ℕ, ◌%◌, ◌&&◌, ◌*◌, ◌+◌, ◌-◌, ◌<◌, ◌==◌, ◌^◌,
  ◌||◌, ◌∷◌, ◌≡◌,
}
use callbook_rs.Prelude.Text.{split_once, to_uppercase}

-- A score is an `i32`, kept as its bit pattern below 2^32. `as i32`, `+=`, `-=` and `*` wrap around,
-- as they do without overflow checks; with them the code stops where these wrap, which takes a
-- record of more than 2^28 bytes.
abbrev pub as_i32 : ℕ → ℕ
as_i32 n = n % 2 ^ 32

abbrev pub add_i32 : ℕ → ℕ → ℕ
add_i32 a b = (a + b) % 2 ^ 32

abbrev pub sub_i32 : ℕ → ℕ → ℕ
sub_i32 a b = (a + 2 ^ 32 - b) % 2 ^ 32

abbrev pub mul_i32 : ℕ → ℕ → ℕ
mul_i32 a b = a * b % 2 ^ 32

-- The sign bit of an `i32`.
abbrev pub sign_bit : ℕ → Bool
sign_bit a = leb (2 ^ 31) a

-- `a < b` on `i32`: of the same sign by the pattern, and else where only `a` is negative.
unfoldable pub i32_lt : ℕ → ℕ → Bool
i32_lt a b = if sign_bit a then not (sign_bit b) || ltb a b else not (sign_bit b) && ltb a b

-- The integer that a pattern stands for, raised by 2^31.
abbrev pub raised : ℕ → ℕ
raised w = if ltb w (2 ^ 31) then w + 2 ^ 31 else w - 2 ^ 31

abbrev pub count {ℓ} : {A : Type ℓ} → (A → Bool) → List A → ℕ
count p xs = length (filter p xs)

abbrev pub is_text_byte : ℕ → Bool
is_text_byte b = b == 0x09 || b == 0x0a || b == 0x0d || leb 0x20 b && leb b 0x7e

abbrev pub is_control : ℕ → Bool
is_control b = ltb b 0x09 || ltb 0x0d b && ltb b 0x20

abbrev pub is_structure : ℕ → Bool
is_structure b = leb 0xb5 b && leb b 0xdf

-- `windows(needle.len()).any(|w| w == needle)`.
unfoldable pub has_window : Bytes → Bytes → Bool
unfolding starts_with
has_window [] needle = is_empty needle
has_window (b ∷ bs) needle = starts_with (b ∷ bs) needle || has_window bs needle

unfoldable pub contains_subslice : Bytes → Bytes → Bool
unfolding has_window
contains_subslice haystack needle = not (is_empty needle) && has_window haystack needle

abbrev pub points_if : Bool → ℕ → ℕ
points_if b n = if b then n else 0

abbrev pub add_key_points : ℕ → Bytes → Bytes → Option (Bytes × Bytes) → ℕ
add_key_points score bytes key none = score
add_key_points score bytes key (some (call, suffix)) =
    add_i32 (add_i32 score (points_if (contains_subslice (to_uppercase bytes) call) 100))
      (points_if (starts_with bytes suffix || starts_with bytes (drop (length call) key)) 150)

unfoldable pub score_candidate : Bytes → Bytes → ℕ
unfolding contains_subslice starts_with split_once to_ascii_uppercase
score_candidate bytes idx_key =
    let key = to_uppercase idx_key in
    let texts = add_i32 0 (as_i32 (count is_text_byte bytes)) in
    let controls = sub_i32 texts (mul_i32 (as_i32 (count is_control bytes)) 3) in
    let structures = add_i32 controls (mul_i32 (as_i32 (count is_structure bytes)) 5) in
    let found = add_i32 structures (points_if (contains_subslice (to_uppercase bytes) key) 200) in
    add_key_points found bytes key (split_once b':' key)

add_key_points-lt :
    (score : ℕ) (bytes key : Bytes) (parts : Option (Bytes × Bytes))
    → score < 2 ^ 32
    → add_key_points score bytes key parts < 2 ^ 32
add_key_points-lt score bytes key none h = h
add_key_points-lt score bytes key (some parts) h = omega arith

pub score_candidate-lt : (bytes idx_key : Bytes) → score_candidate bytes idx_key < 2 ^ 32
unfolding score_candidate
score_candidate-lt bytes idx_key =
    add_key_points-lt _ bytes (to_uppercase idx_key) (split_once b':' (to_uppercase idx_key))
      (omega arith)

-- On patterns below 2^32 the comparison is that of the raised integers.
pub i32_lt-raised : (a b : ℕ) → a < 2 ^ 32 → b < 2 ^ 32 → i32_lt a b ≡ ltb (raised a) (raised b)
unfolding i32_lt
i32_lt-raised a b ha hb = ground arith
