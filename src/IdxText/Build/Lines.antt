-- ===== src/IdxText/Build/Lines.antt =====
-- The loops over the file, against its lines: a file is CRLF-terminated lines and a tail without a
-- line end.
use callbook_rs.Prelude.{
  ℕ, suc, zero, ◌+◌, ◌≤◌, ◌≡◌, refl, ap, ◌∙◌, Bytes, none, some, List, [], ◌∷◌, ◌++◌, inl, inr,
  length, take, drop, All, arith, Option-cases, length-drop,
}
use callbook_rs.IdxText.Line.{find_crlf}

abbrev pub NoCrlf : Bytes → Type 0
NoCrlf l = find_crlf l ≡ none

abbrev pub terminated : Bytes → Bytes → Bytes
terminated l r = l ++ (0x0d ∷ 0x0a ∷ r)

abbrev pub joined : List Bytes → Bytes → Bytes
joined [] tail = tail
joined (l ∷ ls) tail = terminated l (joined ls tail)

pub find_crlf-terminated : (l r : Bytes) → NoCrlf l → find_crlf (terminated l r) ≡ some (length l)
unfolding find_crlf
find_crlf-terminated [] r h = refl
find_crlf-terminated (x ∷ []) r h = ground arith
find_crlf-terminated (x ∷ y ∷ l) r h = ground (arith, find_crlf-terminated (y ∷ l) r)

pub take-length : (l r : Bytes) → take (length l) (l ++ r) ≡ l
take-length [] r = refl
take-length (x ∷ l) r = ap (λ t. x ∷ t) (take-length l r)

pub drop-terminated : (l r : Bytes) → drop (length l + 2) (terminated l r) ≡ r
drop-terminated [] r = refl
drop-terminated (x ∷ l) r =
    let e : suc (length l) + 2 ≡ suc (length l + 2) = omega arith in rw e (drop-terminated l r)

-- A file splits into such lines and a tail, in one way or another.
abbrev Splits : Bytes → Type 0
Splits b = (ls : List Bytes) × (tail : Bytes) × (b ≡ joined ls tail) × All NoCrlf ls × NoCrlf tail

-- The first line end stands where `find_crlf` says.
find_crlf-split :
    (b : Bytes) (i : ℕ)
    → find_crlf b ≡ some i
    → (b ≡ terminated (take i b) (drop (suc (suc i)) b)) × NoCrlf (take i b)
unfolding find_crlf
find_crlf-split [] i h = ground arith
find_crlf-split (x ∷ []) i h = ground arith
find_crlf-split (x ∷ y ∷ b) zero h = ground arith
find_crlf-split (x ∷ y ∷ b) (suc zero) h =
    let ih = find_crlf-split (y ∷ b) zero (ground arith) in (ap (λ t. x ∷ t) ih.0, refl)
find_crlf-split (x ∷ y ∷ b) (suc (suc i)) h =
    let ih = find_crlf-split (y ∷ b) (suc i) (ground arith) in
    (ap (λ t. x ∷ t) ih.0, ground (arith, ih.1))

rest_le :
    (i : ℕ) (b : Bytes) (n : ℕ)
    → find_crlf b ≡ some i
    → length b ≤ suc n
    → length (drop (suc (suc i)) b) ≤ n
unfolding find_crlf
rest_le i [] n e le = omega arith
rest_le i (x ∷ []) n e le = omega arith
rest_le i (x ∷ y ∷ b) n e le = omega (arith, length-drop {0} i b)

-- Every byte string is a file of lines and a tail.
pub file-Splits : (n : ℕ) (b : Bytes) → length b ≤ n → Splits b
file-Splits zero [] le = ([], [], refl, tt, unfold find_crlf in refl)
file-Splits zero (x ∷ b) le = absurd (omega arith)
file-Splits (suc n) b le = elim (Option-cases (find_crlf b)) [
  | inl e ↦ ([], b, refl, tt, e)
  | inr (i, e) ↦
      let (here, clean) = find_crlf-split b i e in
      let rest : Bytes = drop (suc (suc i)) b in
      let (ls, tail, split, all_clean, end) = file-Splits n rest (rest_le i b n e le) in
      (take i b ∷ ls, tail, here ∙ ap (terminated (take i b)) split, (clean, all_clean), end)
]
