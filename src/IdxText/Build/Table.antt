-- ===== src/IdxText/Build/Table.antt =====
-- The table that `build_index` fills and the entries that the iterator yields, line by line.
use callbook_rs.Prelude.{
  All, Bool-cases, Bytes, List, Option, Option-cases, [], ap, append-nil, append_assoc, ap₂, arith,
  if◌then◌else◌, inl, inr, length, length-append, lt→ltb, none, refl, some, suc, sym, zero, ℕ, ◌%◌,
  ◌++◌, ◌+◌, ◌<◌, ◌==◌, ◌^◌, ◌∙◌, ◌∷◌, ◌≡◌, ◌≤◌,
}
use callbook_rs.Error.{◌>>=◌, bind_congr, ok}
use callbook_rs.IdxText.Line.{TextEntry, TextIndexEntry, parse_line, parse_index_line}
use callbook_rs.IdxText.Build.{Scan, push_anchor, push_line, scan_file}
use callbook_rs.IdxText.Build.Lines.{
  NoCrlf, terminated, find_crlf-terminated, take-length, drop-terminated, joined,
}

-- What the table holds for lines that start at `pos`.
abbrev cons_some {ℓ} : {A : Type ℓ} → Option A → List A → List A
cons_some none xs = xs
cons_some (some x) xs = x ∷ xs

abbrev pub index_lines : ℕ → List Bytes → List TextIndexEntry
index_lines pos [] = []
index_lines pos (l ∷ ls) = cons_some (parse_index_line pos l) (index_lines (pos + length l + 2) ls)

-- The entries of the lines that parse.
abbrev pub parsed_lines : List Bytes → List TextEntry
parsed_lines [] = []
parsed_lines (l ∷ ls) = cons_some (parse_line l) (parsed_lines ls)

-- The anchors: the start of every line whose number is a multiple of the stride, an unfinished last
-- line included.
abbrev pub anchors : ℕ → ℕ → ℕ → List Bytes → Bytes → List ℕ
anchors stride pos count [] [] = []
anchors stride pos count [] (b ∷ tail) = if count % stride == 0 then pos ∷ [] else []
anchors stride pos count (l ∷ ls) tail =
    if count % stride == 0
    then pos ∷ anchors stride (pos + length l + 2) (count + 1) ls tail
    else anchors stride (pos + length l + 2) (count + 1) ls tail

scan_round :
    (fuel stride pos : ℕ) (l r : Bytes) (scan : Scan)
    → NoCrlf l
    → scan_file (suc fuel) stride pos (terminated l r) scan ≡ (
        push_anchor stride pos scan >>= λ s.
        scan_file fuel stride (pos + length l + 2) r (push_line pos l s))
unfolding scan_file
scan_round fuel stride pos [] r scan h =
    bind_congr (push_anchor stride pos scan)
      λ s. rw (find_crlf-terminated [] r h, drop-terminated [] r) refl
scan_round fuel stride pos (x ∷ l) r scan h = bind_congr (push_anchor stride pos scan) λ s.
    rw (find_crlf-terminated (x ∷ l) r h, drop-terminated (x ∷ l) r, take-length (x ∷ l) _) refl

abbrev anchor_at : ℕ → ℕ → ℕ → List ℕ
anchor_at stride pos count = if count % stride == 0 then pos ∷ [] else []

abbrev with_anchor : ℕ → ℕ → Scan → Scan
with_anchor stride pos scan = record scan {
  directory = scan.directory ++ anchor_at stride pos scan.line_count;
}

push_anchor-ok :
    (stride pos : ℕ) (scan : Scan)
    → pos < 2 ^ 32
    → push_anchor stride pos scan ≡ ok (with_anchor stride pos scan)
unfolding push_anchor
push_anchor-ok stride pos scan h = elim (Bool-cases (scan.line_count % stride == 0)) [
  | inl e ↦ rw (e, lt→ltb pos (2 ^ 32) h)
  | inr e ↦ rw (e, append-nil)
]

-- The scan after the lines `ls` from `pos` on.
abbrev pub scanned : ℕ → ℕ → List Bytes → Bytes → Scan → Scan
scanned stride pos ls tail scan = record {
  directory = scan.directory ++ anchors stride pos scan.line_count ls tail;
  entries = scan.entries ++ index_lines pos ls;
  line_count = scan.line_count + length ls;
}

Scan-eq :
    {a b : Scan}
    → a.directory ≡ b.directory
    → a.entries ≡ b.entries
    → a.line_count ≡ b.line_count
    → a ≡ b
Scan-eq p q r = λ i. record { directory = p i; entries = q i; line_count = r i }

line_count-push_line :
    (pos : ℕ) (l : Bytes) (s : Scan) → (push_line pos l s).line_count ≡ s.line_count + 1
unfolding push_line
line_count-push_line pos l s = elim (Option-cases (parse_index_line pos l)) [
  | inl e ↦ rw (e, push_line)
  | inr (x, e) ↦ rw (e, push_line)
]

directory-push_line : (pos : ℕ) (l : Bytes) (s : Scan) → (push_line pos l s).directory ≡ s.directory
unfolding push_line
directory-push_line pos l s = elim (Option-cases (parse_index_line pos l)) [
  | inl e ↦ rw (e, push_line)
  | inr (x, e) ↦ rw (e, push_line)
]

entries-push_line :
    (pos : ℕ) (l : Bytes) (s : Scan) (more : List TextIndexEntry)
    → (push_line pos l s).entries ++ more ≡ s.entries ++ cons_some (parse_index_line pos l) more
unfolding push_line
entries-push_line pos l s more = elim (Option-cases (parse_index_line pos l)) [
  | inl e ↦ rw (e, push_line)
  | inr (x, e) ↦ rw (e, push_line) (append_assoc s.entries (x ∷ []) more)
]

anchors-cons :
    (stride pos count : ℕ) (l : Bytes) (ls : List Bytes) (tail : Bytes)
    → anchor_at stride pos count ++ anchors stride (pos + length l + 2) (count + 1) ls tail
      ≡ anchors stride pos count (l ∷ ls) tail
anchors-cons stride pos count l ls tail = elim (Bool-cases (count % stride == 0)) [
  | inl e ↦ rw e
  | inr e ↦ rw e
]

scanned-cons :
    (stride pos : ℕ) (l : Bytes) (ls : List Bytes) (tail : Bytes) (scan : Scan)
    → scanned stride (pos + length l + 2) ls tail (push_line pos l (with_anchor stride pos scan))
      ≡ scanned stride pos (l ∷ ls) tail scan
scanned-cons stride pos l ls tail scan =
    let s = with_anchor stride pos scan in
    let count = line_count-push_line pos l s in
    let dirs = directory-push_line pos l s in
    Scan-eq
      (ap₂ (λ (d : List ℕ) (c : ℕ). d ++ anchors stride (pos + length l + 2) c ls tail) dirs count
        ∙ append_assoc scan.directory (anchor_at stride pos scan.line_count) _
        ∙ ap (λ a. scan.directory ++ a) (anchors-cons stride pos scan.line_count l ls tail))
      (entries-push_line pos l s (index_lines (pos + length l + 2) ls)) (omega (arith, count))

pub length-terminated : (l r : Bytes) → length (terminated l r) ≡ length l + 2 + length r
length-terminated l r = omega (arith, length-append {0} l (0x0d ∷ 0x0a ∷ r))

Scan-nil : (scan : Scan) → scan ≡ scanned 1 0 [] [] scan
Scan-nil scan =
    Scan-eq (sym (append-nil scan.directory)) (sym (append-nil scan.entries)) (omega arith)

scan_file_tail :
    (fuel stride pos : ℕ) (tail : Bytes) (scan : Scan)
    → NoCrlf tail
    → length tail ≤ fuel
    → pos + length tail < 2 ^ 32
    → scan_file fuel stride pos tail scan ≡ ok (scanned stride pos [] tail scan)
unfolding scan_file
scan_file_tail zero stride pos [] scan end fits small = ap ok (Scan-nil scan)
scan_file_tail (suc fuel) stride pos [] scan end fits small = ap ok (Scan-nil scan)
scan_file_tail zero stride pos (b ∷ tail) scan end fits small = absurd (omega arith)
scan_file_tail (suc fuel) stride pos (b ∷ tail) scan end fits small =
    rw (push_anchor-ok stride pos scan (omega arith), end)
      (ap ok (Scan-eq refl (sym (append-nil scan.entries)) (omega arith)))

-- On a file below 4 GiB the loop of `build_index` keeps, for each line in order, the entry that
-- `parse_index_line` reads from it; it counts every line and never runs out of fuel.
pub scan_file-scanned :
    (fuel stride pos : ℕ) (ls : List Bytes) (tail : Bytes) (scan : Scan)
    → All NoCrlf ls
    → NoCrlf tail
    → length (joined ls tail) ≤ fuel
    → pos + length (joined ls tail) < 2 ^ 32
    → scan_file fuel stride pos (joined ls tail) scan ≡ ok (scanned stride pos ls tail scan)
scan_file-scanned fuel stride pos [] tail scan clean end fits small =
    scan_file_tail fuel stride pos tail scan end fits small
scan_file-scanned zero stride pos (l ∷ ls) tail scan clean end fits small =
    absurd (omega (arith, length-terminated l (joined ls tail)))
scan_file-scanned (suc fuel) stride pos (l ∷ ls) tail scan clean end fits small =
    let len = length-terminated l (joined ls tail) in
    let s = with_anchor stride pos scan in
    scan_round fuel stride pos l (joined ls tail) scan clean.0
    ∙ ap
        (λ m. m >>= λ s.
          scan_file fuel stride (pos + length l + 2) (joined ls tail) (push_line pos l s))
        (push_anchor-ok stride pos scan (omega (arith, len)))
    ∙ scan_file-scanned fuel stride (pos + length l + 2) ls tail (push_line pos l s) clean.1 end
        (omega (arith, len)) (omega (arith, len))
    ∙ ap ok (scanned-cons stride pos l ls tail scan)
