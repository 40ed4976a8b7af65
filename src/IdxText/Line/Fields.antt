-- ===== src/IdxText/Line/Fields.antt =====
-- What the two line parsers have in common, and that they read the same key and offset.
use callbook_rs.Prelude.{
  Option, none, some, >>=-eq-some, All, Bool, Bytes, Holds, Option-cases, [], ap, arith, drop,
  false, inl, inr, is_ascii_digit, is_empty, length, lt→ltb, map_option, refl, some, subst, suc,
  sym, take, zero, ℕ, ◌*◌, ◌+◌, ◌-◌, ◌<◌, ◌^◌, ◌∙◌, ◌≡◌, ◌≤◌,
}
use callbook_rs.Prelude.Trim.{trim_end, take-trim_end, length-trim_end, drop-trim_end}
use callbook_rs.Decimal.{scan_digits, parse_uint}
use callbook_rs.IdxText.Line.Walk.{parse_index_line-line_fields}
use callbook_rs.IdxText.Line.{
  LineParts, is_space, trim_ascii_trailing_spaces, line_fields, TextEntry, TextIndexEntry,
  decimal_loop, parse_decimal_u64, parse_line, parse_index_line, ◌∷◌,
}

-- The leading part of a byte string.
abbrev pub Leads : Bytes → Bytes → Type 0
Leads x l = (take (length x) l ≡ x) × (length x ≤ length l)

take-take : (m n : ℕ) (l : Bytes) → m ≤ n → take m (take n l) ≡ take m l
take-take zero n l h = refl
take-take (suc m) zero l h = absurd (omega arith)
take-take (suc m) (suc n) [] h = refl
take-take (suc m) (suc n) (x ∷ l) h = ap (λ t. x ∷ t) (take-take m n l (omega arith))

Leads-trans : (x y l : Bytes) → Leads x y → Leads y l → Leads x l
Leads-trans x y l (xy, xy_le) (yl, yl_le) =
    (sym (take-take (length x) (length y) l xy_le) ∙ ap (take (length x)) yl ∙ xy, omega arith)

trim_end-Leads : (p : ℕ → Bool) (l : Bytes) → Leads (trim_end p l) l
trim_end-Leads p l = (take-trim_end p l, length-trim_end p l)

-- `checked_mul` then `checked_add` refuse exactly what does not fit.
decimal_loop-scan_digits :
    (out : ℕ) (bytes : Bytes) → decimal_loop out bytes ≡ scan_digits 64 out bytes
unfolding decimal_loop scan_digits
decimal_loop-scan_digits out [] = refl
decimal_loop-scan_digits out (b ∷ bytes) =
    ground (arith, decimal_loop-scan_digits (out * 10 + (b - b'0')) bytes)

-- On one or more digits the hand-written reader is `str::parse::<u64>`.
parse_decimal_u64-parse_uint :
    (bytes : Bytes)
    → is_empty bytes ≡ false
    → All (Holds is_ascii_digit) bytes
    → parse_decimal_u64 bytes ≡ parse_uint 64 bytes
unfolding parse_decimal_u64 parse_uint
parse_decimal_u64-parse_uint [] ne h = ground arith
parse_decimal_u64-parse_uint (b ∷ bytes) ne h =
    decimal_loop-scan_digits 0 (b ∷ bytes) ∙ ground arith

abbrev head_of : Bytes → Bytes
head_of l = trim_end is_ascii_digit (trim_end is_space l)

line_fields-eq :
    (l : Bytes) (parts : LineParts)
    → line_fields l ≡ some parts
    → (parts.head ≡ trim_end is_space (head_of l))
      × (parts.digits ≡ drop (length (head_of l)) (trim_end is_space l))
      × (is_empty parts.digits ≡ false)
unfolding line_fields
line_fields-eq l parts h = ground arith

-- The key of the fields is the front of the line.
line_fields-Leads :
    (l : Bytes) (parts : LineParts) → line_fields l ≡ some parts → Leads parts.head l
unfolding trim_ascii_trailing_spaces
line_fields-Leads l parts h =
    let trimmed = trim_end is_space l in
    let (e, _, _) = line_fields-eq l parts h in
    rw e (
      Leads-trans (trim_end is_space (head_of l)) (head_of l) l
        (trim_end-Leads is_space (head_of l))
        (Leads-trans (head_of l) trimmed l (trim_end-Leads is_ascii_digit trimmed)
          (trim_end-Leads is_space l)))

line_fields-digits :
    (l : Bytes) (parts : LineParts)
    → line_fields l ≡ some parts
    → parse_decimal_u64 parts.digits ≡ parse_uint 64 parts.digits
line_fields-digits l parts h =
    let (_, e, ne) = line_fields-eq l parts h in
    parse_decimal_u64-parse_uint parts.digits ne
      (rw e (drop-trim_end is_ascii_digit (trim_end is_space l)))

-- An entry of the table for a line at `start` keeps the start of the line, the length of the key
-- and the offset of what the iterator reads from that line.
abbrev pub table_entry : ℕ → TextEntry → TextIndexEntry
table_entry start t = record {
  key_start = start;
  key_len = length t.key;
  line_start = start;
  dat_offset = t.dat_offset;
}

parse_index_line-table_entry :
    (start : ℕ) (l : Bytes)
    → start < 2 ^ 32
    → length l < 2 ^ 16
    → parse_index_line start l ≡ map_option (table_entry start) (parse_line l)
unfolding parse_line
parse_index_line-table_entry start l hs hl = elim (Option-cases (line_fields l)) [
  | inl e ↦ rw (parse_index_line-line_fields start l, e) refl
  | inr (parts, e) ↦
      let lead = line_fields-Leads l parts e in
      let same = line_fields-digits l parts e in
      rw (parse_index_line-line_fields start l, e, same)
        (elim (Option-cases (parse_uint 64 parts.digits)) [
          | inl f ↦ rw f
          | inr (n, f) ↦ rw (
            f,
            lt→ltb start (2 ^ 32) hs,
            lt→ltb (length parts.head) (2 ^ 16) (omega (arith, lead.1)),
          )
        ])
]

pub parse_line-Leads : (l : Bytes) (t : TextEntry) → parse_line l ≡ some t → Leads t.key l
unfolding parse_line
parse_line-Leads l t h =
    let (parts, e, rest) = >>=-eq-some (line_fields l) _ h in
    let (n, f, last) = >>=-eq-some (parse_uint 64 parts.digits) _ rest in
    let same : parts.head ≡ t.key = cc last in
    subst (λ k. Leads k l) same (line_fields-Leads l parts e)

-- The key of an entry, where there is one, is the front of the line.
abbrev pub KeyLeads : Bytes → Option TextEntry → Type 0
KeyLeads l none = Unit
KeyLeads l (some t) = Leads t.key l

-- `parse_index_line` accepts the lines that `parse_line` accepts, and its entry has the start of
-- the line, the length of the key and the offset of the entry of `parse_line`, at a start below
-- 2^32 and on a line shorter than 2^16; and the key of `parse_line` is the front of the line.
pub parse_index_line-parse_line :
    (start : ℕ) (l : Bytes)
    → start < 2 ^ 32
    → length l < 2 ^ 16
    → (parse_index_line start l ≡ map_option (table_entry start) (parse_line l))
      × KeyLeads l (parse_line l)
parse_index_line-parse_line start l hs hl = (
  parse_index_line-table_entry start l hs hl,
  elim (Option-cases (parse_line l)) [
    | inl e ↦ rw e tt
    | inr (t, e) ↦ rw e (parse_line-Leads l t e)
  ],
)
