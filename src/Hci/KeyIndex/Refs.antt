-- ===== src/Hci/KeyIndex/Refs.antt =====
-- What the build loop pushes, record by record, and the offsets it reads.
use callbook_rs.Prelude.{
  All, All-append, Bool-cases, Bytes, List, Option, [], ap, append-nil, append_assoc, arith, drop,
  get_elem?, if◌then◌else◌, inl, inr, length, ltb, lt→ltb, none, refl, slice, subst, suc, sym, zero,
  ℕ, ◌*◌, ◌++◌, ◌+◌, ◌/◌, ◌<◌, ◌^◌, ◌∙◌, ◌≡◌, ◌≤◌,
}
use callbook_rs.Hci.Data.{HciFile, HciKeyRef, offset, be_u32?, outside}
use callbook_rs.Hci.Header.{HciHeaderKey, decode_header_key}
use callbook_rs.Hci.KeyIndex.{
  KeyIndex, chunk_offsets, push_hci_key_ref, push_from, push_header, some, ◌∷◌,
}
use callbook_rs.Hci.KeyIndex.Slice.{Ascending}

pub length-chunk_offsets : (m : Bytes) → length (chunk_offsets m) ≡ length m / 4
unfolding chunk_offsets
length-chunk_offsets [] = refl
length-chunk_offsets (a ∷ []) = refl
length-chunk_offsets (a ∷ b ∷ []) = refl
length-chunk_offsets (a ∷ b ∷ c ∷ []) = refl
length-chunk_offsets (a ∷ b ∷ c ∷ d ∷ m) = omega (arith, length-chunk_offsets m)

four_more : (i : ℕ) → suc i * 4 ≡ suc (suc (suc (suc (i * 4))))
four_more i = omega arith

pub be_u32?-chunk_offsets :
    (i : ℕ) (m : Bytes) → be_u32? (drop (i * 4) m) ≡ get_elem? (chunk_offsets m) i
unfolding chunk_offsets
be_u32?-chunk_offsets zero [] = refl
be_u32?-chunk_offsets zero (a ∷ []) = refl
be_u32?-chunk_offsets zero (a ∷ b ∷ []) = refl
be_u32?-chunk_offsets zero (a ∷ b ∷ c ∷ []) = refl
be_u32?-chunk_offsets zero (a ∷ b ∷ c ∷ d ∷ m) = refl
be_u32?-chunk_offsets (suc i) [] = rw (four_more i) refl
be_u32?-chunk_offsets (suc i) (a ∷ []) = rw (four_more i) refl
be_u32?-chunk_offsets (suc i) (a ∷ b ∷ []) = rw (four_more i) refl
be_u32?-chunk_offsets (suc i) (a ∷ b ∷ c ∷ []) = rw (four_more i) refl
be_u32?-chunk_offsets (suc i) (a ∷ b ∷ c ∷ d ∷ m) = rw (four_more i) (be_u32?-chunk_offsets i m)

-- `offset` and the chunks of the build loop read the same table.
pub offset-chunk_offsets :
    (hci : HciFile) (i : ℕ) → i < 2 ^ 62 → offset hci i ≡ get_elem? (chunk_offsets hci.index_mmap) i
unfolding offset
offset-chunk_offsets hci i h =
    rw (lt→ltb (i * 4) (2 ^ 64) (omega arith)) (be_u32?-chunk_offsets i hci.index_mmap)

abbrev pub header_ref : ℕ → Option HciHeaderKey → List HciKeyRef
header_ref index none = []
header_ref index (some header) =
    if ltb index (2 ^ 32) then record { hash = header.hash; index = index } ∷ [] else []

abbrev pub ref_of : Bytes → ℕ → ℕ → ℕ → List HciKeyRef
ref_of dat index start end =
    if outside (length dat) start end
    then []
    else header_ref index (decode_header_key start (slice dat start end))

abbrev pub refs_from : Bytes → ℕ → ℕ → List ℕ → List HciKeyRef
refs_from dat index previous [] = ref_of dat index previous (length dat)
refs_from dat index previous (current ∷ offsets) =
    ref_of dat index previous current ++ refs_from dat (index + 1) current offsets

entries-push_header :
    (index : ℕ) (o : Option HciHeaderKey) (found : KeyIndex)
    → (push_header index o found).entries ≡ found.entries ++ header_ref index o
entries-push_header index none found = sym (append-nil found.entries)
entries-push_header index (some h) found = elim (Bool-cases (ltb index (2 ^ 32))) [
  | inl e ↦ rw e refl
  | inr e ↦ rw e (sym (append-nil found.entries))
]

entries-push_hci_key_ref :
    (dat : Bytes) (index start end : ℕ) (found : KeyIndex)
    → (push_hci_key_ref dat index start end found).entries
      ≡ found.entries ++ ref_of dat index start end
unfolding push_hci_key_ref
entries-push_hci_key_ref dat index start end found =
    elim (Bool-cases (outside (length dat) start end)) [
      | inl e ↦ rw e (sym (append-nil found.entries))
      | inr e ↦
          rw e (entries-push_header index (decode_header_key start (slice dat start end)) found)
    ]

pub entries-push_from :
    (dat : Bytes) (index previous : ℕ) (offsets : List ℕ) (found : KeyIndex)
    → (push_from dat index previous offsets found).entries
      ≡ found.entries ++ refs_from dat index previous offsets
unfolding push_from
entries-push_from dat index previous [] found =
    entries-push_hci_key_ref dat index previous (length dat) found
entries-push_from dat index previous (current ∷ offsets) found =
    let one = entries-push_hci_key_ref dat index previous current found in
    entries-push_from dat (index + 1) current offsets
      (push_hci_key_ref dat index previous current found)
    ∙ ap (λ es. es ++ refs_from dat (index + 1) current offsets) one
    ∙ append_assoc found.entries (ref_of dat index previous current)
        (refs_from dat (index + 1) current offsets)

-- The ordinals in the table go up.
abbrev From : ℕ → List HciKeyRef → Type 0
From n refs = All (λ r. n ≤ r.index) refs

header_ref-From : (n index : ℕ) (o : Option HciHeaderKey) → n ≤ index → From n (header_ref index o)
header_ref-From n index none h = tt
header_ref-From n index (some header) h = elim (Bool-cases (ltb index (2 ^ 32))) [
  | inl e ↦ rw e (h, tt)
  | inr e ↦ rw e tt
]

ref_of-From :
    (dat : Bytes) (n index start end : ℕ) → n ≤ index → From n (ref_of dat index start end)
ref_of-From dat n index start end h = elim (Bool-cases (outside (length dat) start end)) [
  | inl e ↦ rw e tt
  | inr e ↦ rw e (header_ref-From n index (decode_header_key start (slice dat start end)) h)
]

refs_from-From :
    (dat : Bytes) (n index previous : ℕ) (offsets : List ℕ)
    → n ≤ index
    → From n (refs_from dat index previous offsets)
refs_from-From dat n index previous [] h = ref_of-From dat n index previous (length dat) h
refs_from-From dat n index previous (current ∷ offsets) h =
    All-append (λ r. n ≤ r.index) (ref_of dat index previous current)
      (refs_from dat (index + 1) current offsets) (ref_of-From dat n index previous current h)
      (refs_from-From dat n (index + 1) current offsets (omega arith))

-- One reference, or none, in front of later ones.
header_ref-Ascending :
    (index : ℕ) (o : Option HciHeaderKey) (refs : List HciKeyRef)
    → From (index + 1) refs
    → Ascending refs
    → Ascending (header_ref index o ++ refs)
header_ref-Ascending index none refs h a = a
header_ref-Ascending index (some header) refs h a = elim (Bool-cases (ltb index (2 ^ 32))) [
  | inl e ↦ rw e (strictly refs h, a)
  | inr e ↦ rw e a
]
  where
    strictly : (refs : List HciKeyRef) → From (index + 1) refs → All (λ r. index < r.index) refs
    strictly [] h = tt
    strictly (r ∷ refs) h = (omega (arith, h.0), strictly refs h.1)

ref_of-Ascending :
    (dat : Bytes) (index start end : ℕ) (refs : List HciKeyRef)
    → From (index + 1) refs
    → Ascending refs
    → Ascending (ref_of dat index start end ++ refs)
ref_of-Ascending dat index start end refs h a = elim (Bool-cases (outside (length dat) start end)) [
  | inl e ↦ rw e a
  | inr e ↦
      rw e (header_ref-Ascending index (decode_header_key start (slice dat start end)) refs h a)
]

pub refs_from-Ascending :
    (dat : Bytes) (index previous : ℕ) (offsets : List ℕ)
    → Ascending (refs_from dat index previous offsets)
refs_from-Ascending dat index previous [] =
    subst Ascending (append-nil (ref_of dat index previous (length dat)))
      (ref_of-Ascending dat index previous (length dat) [] tt tt)
refs_from-Ascending dat index previous (current ∷ offsets) =
    ref_of-Ascending dat index previous current (refs_from dat (index + 1) current offsets)
      (refs_from-From dat (index + 1) (index + 1) current offsets (omega arith))
      (refs_from-Ascending dat (index + 1) current offsets)
