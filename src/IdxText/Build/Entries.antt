-- ===== src/IdxText/Build/Entries.antt =====
-- The table of the index holds the entries that the iterator yields, in the same order.
use callbook_rs.Prelude.{
  All, Bytes, List, Option, Option-cases, [], ap, ap₂, arith, drop, inl, inr, length, map, none,
  refl, some, suc, sym, take, zero, ℕ, ◌++◌, ◌+◌, ◌<◌, ◌^◌, ◌∙◌, ◌≡◌, ◌≤◌,
}
use callbook_rs.IdxText.Line.{TextEntry, parse_line}
use callbook_rs.IdxText.Line.Fields.{parse_index_line-parse_line, parse_line-Leads}
use callbook_rs.IdxText.Build.{Next, next_entry, iter_entries, entry_key, text_entry, ◌∷◌, or_later}
use callbook_rs.IdxText.Build.Lines.{
  NoCrlf, terminated, joined, find_crlf-terminated, take-length, drop-terminated,
}
use callbook_rs.IdxText.Build.Table.{index_lines, parsed_lines, length-terminated}

abbrev pub ShortLine : Bytes → Type 0
ShortLine l = length l < 2 ^ 16

drop-nil : (n : ℕ) → drop {A = ℕ} n [] ≡ []
drop-nil zero = refl
drop-nil (suc n) = refl

drop-add : (m n : ℕ) (b : Bytes) → drop n (drop m b) ≡ drop (m + n) b
drop-add zero n b = let e : 0 + n ≡ n = omega arith in rw e
drop-add (suc m) n [] = drop-nil n ∙ sym (drop-nil (suc m + n))
drop-add (suc m) n (x ∷ b) = let e : suc m + n ≡ suc (m + n) = omega arith in rw e (drop-add m n b)

take-front : (n : ℕ) (l r : Bytes) → n ≤ length l → take n (l ++ r) ≡ take n l
take-front zero l r h = refl
take-front (suc n) [] r h = absurd (omega arith)
take-front (suc n) (x ∷ l) r h = ap (λ t. x ∷ t) (take-front n l r (omega arith))

-- The slice of the mapping that an entry names is its key.
entry_key-front :
    (mmap l r : Bytes) (pos : ℕ) (t : TextEntry)
    → drop pos mmap ≡ l ++ r
    → parse_line l ≡ some t
    → take (length t.key) (drop pos mmap) ≡ t.key
entry_key-front mmap l r pos t here e =
    let (front, fits) = parse_line-Leads l t e in
    ap (take (length t.key)) here ∙ take-front (length t.key) l r fits ∙ front

drop-next :
    (mmap l r : Bytes) (pos : ℕ)
    → drop pos mmap ≡ terminated l r
    → drop (pos + length l + 2) mmap ≡ r
drop-next mmap l r pos here =
    let e : pos + length l + 2 ≡ pos + (length l + 2) = omega arith in
    ap (λ n. drop n mmap) e
    ∙ sym (drop-add pos (length l + 2) mmap)
    ∙ ap (drop (length l + 2)) here
    ∙ drop-terminated l r

pub index_lines-parsed_lines :
    (mmap : Bytes) (pos : ℕ) (ls : List Bytes) (tail : Bytes)
    → drop pos mmap ≡ joined ls tail
    → All ShortLine ls
    → pos + length (joined ls tail) < 2 ^ 32
    → map (text_entry mmap) (index_lines pos ls) ≡ parsed_lines ls
unfolding text_entry entry_key
index_lines-parsed_lines mmap pos [] tail here short small = refl
index_lines-parsed_lines mmap pos (l ∷ ls) tail here short small =
    let rest = joined ls tail in
    let len = length-terminated l rest in
    let ih =
      index_lines-parsed_lines mmap (pos + length l + 2) ls tail (drop-next mmap l rest pos here)
        short.1 (omega (arith, len)) in
    let same = (parse_index_line-parse_line pos l (omega (arith, len)) short.0).0 in
    elim (Option-cases (parse_line l)) [
      | inl e ↦ rw (same, e) ih
      | inr (t, e) ↦
          rw (same, e)
            (ap₂
              (λ (k : Bytes) (ts : List TextEntry).
                record { key = k; dat_offset = t.dat_offset } ∷ ts)
              (entry_key-front mmap l (0x0d ∷ 0x0a ∷ rest) pos t here e) ih)
    ]

next_step :
    (fuel : ℕ) (l r : Bytes)
    → NoCrlf l
    → next_entry (suc fuel) (terminated l r) ≡ or_later (parse_line l) r (next_entry fuel r)
unfolding next_entry
next_step fuel [] r h = rw (next_entry, find_crlf-terminated [] r h) refl
next_step fuel (x ∷ l) r h =
    rw (next_entry, find_crlf-terminated (x ∷ l) r h)
      (ap₂ (λ k b. or_later (parse_line k) b (next_entry fuel b)) (take-length (x ∷ l) _)
        (drop-terminated (x ∷ l) r))

-- What the iterator still yields after `next`.
abbrev yields : ℕ → Option Next → List TextEntry
yields fuel none = []
yields fuel (some next) = next.entry ∷ iter_entries fuel next.rest

next_entry-end : (fuel : ℕ) (tail : Bytes) → NoCrlf tail → next_entry fuel tail ≡ none
unfolding next_entry
next_entry-end zero [] h = refl
next_entry-end (suc fuel) [] h = refl
next_entry-end zero (b ∷ tail) h = refl
next_entry-end (suc fuel) (b ∷ tail) h = rw (next_entry, h) refl

-- `next` skips to the first line that parses; the fuel counts lines.
next_entry-yields :
    (fuel n : ℕ) (ls : List Bytes) (tail : Bytes)
    → All NoCrlf ls
    → NoCrlf tail
    → length ls ≤ n
    → ((ms : List Bytes)
        → length ms < length ls
        → All NoCrlf ms
        → iter_entries fuel (joined ms tail) ≡ parsed_lines ms)
    → yields fuel (next_entry n (joined ls tail)) ≡ parsed_lines ls
next_entry-yields fuel n [] tail clean end le ih = rw (next_entry-end n tail end)
next_entry-yields fuel zero (l ∷ ls) tail clean end le ih = absurd (omega arith)
next_entry-yields fuel (suc n) (l ∷ ls) tail clean end le ih =
    rw (next_step n l (joined ls tail) clean.0) (elim (Option-cases (parse_line l)) [
      | inl e ↦ rw e (
          next_entry-yields fuel n ls tail clean.1 end (omega arith)
            (λ ms lt c. ih ms (omega arith) c))
      | inr (t, e) ↦ rw e (ap (λ r. t ∷ r) (ih ls (omega arith) clean.1))
    ])

pub length-joined : (ls : List Bytes) (tail : Bytes) → length ls ≤ length (joined ls tail)
length-joined [] tail = omega arith
length-joined (l ∷ ls) tail =
    omega (arith, length-terminated l (joined ls tail), length-joined ls tail)

iter_entries-yields :
    (fuel : ℕ) (buf : Bytes)
    → iter_entries (suc fuel) buf ≡ yields fuel (next_entry (length buf) buf)
unfolding iter_entries
iter_entries-yields fuel buf = elim (Option-cases (next_entry (length buf) buf)) [
  | inl e ↦ rw (iter_entries, e)
  | inr (x, e) ↦ rw (iter_entries, e)
]

-- The iterator yields the entries of the lines that parse.
pub iter_entries-parsed_lines :
    (fuel : ℕ) (ls : List Bytes) (tail : Bytes)
    → All NoCrlf ls
    → NoCrlf tail
    → length ls ≤ fuel
    → iter_entries fuel (joined ls tail) ≡ parsed_lines ls
iter_entries-parsed_lines zero [] tail clean end le = unfold iter_entries in refl
iter_entries-parsed_lines zero (l ∷ ls) tail clean end le = absurd (omega arith)
iter_entries-parsed_lines (suc fuel) ls tail clean end le =
    iter_entries-yields fuel (joined ls tail)
    ∙ next_entry-yields fuel (length (joined ls tail)) ls tail clean end (length-joined ls tail)
        (λ ms lt c. iter_entries-parsed_lines fuel ms tail c end (omega arith))
