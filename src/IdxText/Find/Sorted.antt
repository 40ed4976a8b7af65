-- ===== src/IdxText/Find/Sorted.antt =====
-- Lists of entries in key order: what the order test leaves, and what equal keys and keys with a
-- common prefix do in it.
use callbook_rs.Prelude.{
  All, Bool, Bool-cases, Bytes, List, [], ap, arith, bytes_eq, bytes_eq_iff, bytes_eq_refl, false,
  filter, if◌then◌else◌, inl, inr, not, refl, starts_with, sym, true, ◌>>=◌, ◌≡◌,
}
use callbook_rs.Prelude.Order.{
  lt_bytes, lt_bytes_irrefl, lt_bytes_connex, lt_le_trans, le_trans_bytes, le-starts_with,
  starts_with_interval,
}
use callbook_rs.Prelude.Search.{IsPartitioned}
use callbook_rs.Prelude.Trim.{Fails}
use callbook_rs.IdxText.Line.{TextEntry}
use callbook_rs.IdxText.Find.{head?, matching, ◌∷◌}

abbrev AtLeast : Bytes → TextEntry → Type 0
AtLeast key e = lt_bytes e.key key ≡ false

-- Keys never go down.
abbrev pub KeysSorted : List TextEntry → Type 0
KeysSorted [] = Unit
KeysSorted (x ∷ xs) = All (AtLeast x.key) xs × KeysSorted xs

abbrev pub below : Bytes → TextEntry → Bool
below target e = lt_bytes e.key target

abbrev pub not_above : Bytes → TextEntry → Bool
not_above target e = not (lt_bytes target e.key)

AtLeast-Fails :
    (target : Bytes) (x : TextEntry) (xs : List TextEntry)
    → below target x ≡ false
    → All (AtLeast x.key) xs
    → All (Fails (below target)) xs
AtLeast-Fails target x [] h a = tt
AtLeast-Fails target x (y ∷ xs) h a =
    (le_trans_bytes target x.key y.key h a.0, AtLeast-Fails target x xs h a.1)

AtLeast-not_above :
    (target : Bytes) (x : TextEntry) (xs : List TextEntry)
    → not_above target x ≡ false
    → All (AtLeast x.key) xs
    → All (Fails (not_above target)) xs
AtLeast-not_above target x [] h a = tt
AtLeast-not_above target x (y ∷ xs) h a =
    let strict : lt_bytes target x.key ≡ true = ground arith in
    (rw (lt_le_trans target x.key y.key strict a.0) refl, AtLeast-not_above target x xs h a.1)

pub KeysSorted-below :
    (target : Bytes) (xs : List TextEntry) → KeysSorted xs → IsPartitioned (below target) xs
KeysSorted-below target [] s = tt
KeysSorted-below target (x ∷ xs) s =
    (λ h. AtLeast-Fails target x xs h s.0, KeysSorted-below target xs s.1)

pub KeysSorted-not_above :
    (target : Bytes) (xs : List TextEntry) → KeysSorted xs → IsPartitioned (not_above target) xs
KeysSorted-not_above target [] s = tt
KeysSorted-not_above target (x ∷ xs) s =
    (λ h. AtLeast-not_above target x xs h s.0, KeysSorted-not_above target xs s.1)

-- The entries from the first key not below `target` on.
abbrev pub from_key : Bytes → List TextEntry → List TextEntry
from_key target xs = filter (λ e. not (below target e)) xs

abbrev pub has_key : Bytes → TextEntry → Bool
has_key key e = bytes_eq e.key key

abbrev pub has_prefix : Bytes → TextEntry → Bool
has_prefix prefix e = starts_with e.key prefix

lt-no_key : (a b : Bytes) → lt_bytes a b ≡ true → bytes_eq b a ≡ false
lt-no_key a b h = elim (Bool-cases (bytes_eq b a)) [
  | inl e ↦ let same : b ≡ a = (bytes_eq_iff b a).0 e in absurd (cc (h, lt_bytes_irrefl a, same))
  | inr e ↦ e
]

gt-no_key : (a b : Bytes) → lt_bytes b a ≡ true → bytes_eq b a ≡ false
gt-no_key a b h = elim (Bool-cases (bytes_eq b a)) [
  | inl e ↦ let same : b ≡ a = (bytes_eq_iff b a).0 e in absurd (cc (h, lt_bytes_irrefl a, same))
  | inr e ↦ e
]

-- An entry above the key, and all that follow it, have another key.
above-no_key :
    (key : Bytes) (x : TextEntry) (xs : List TextEntry)
    → lt_bytes key x.key ≡ true
    → All (AtLeast x.key) xs
    → filter (has_key key) xs ≡ []
above-no_key key x [] h a = refl
above-no_key key x (y ∷ xs) h a =
    rw (lt-no_key key y.key (lt_le_trans key x.key y.key h a.0)) (above-no_key key x xs h a.1)

-- The first entry with the key is the first of those not below it, if that has the key.
pub from_key-head :
    (key : Bytes) (xs : List TextEntry)
    → KeysSorted xs
    → (head? (from_key key xs) >>= matching key) ≡ head? (filter (has_key key) xs)
from_key-head key [] s = refl
from_key-head key (x ∷ xs) s = elim (Bool-cases (below key x)) [
  | inl under ↦ rw (under, gt-no_key key x.key under) (from_key-head key xs s.1)
  | inr over ↦ elim (Bool-cases (has_key key x)) [
    | inl same ↦ rw (over, same)
    | inr other ↦
        let strict : lt_bytes key x.key ≡ true = elim (Bool-cases (lt_bytes key x.key)) [
          | inl e ↦ e
          | inr e ↦
              let same = lt_bytes_connex key x.key e over in
              absurd (cc (other, bytes_eq_refl key, same))
        ] in
        rw (over, other, above-no_key key x xs strict s.0) refl
  ]
]

-- The `while` loop on entries in memory.
abbrev pub prefix_run : Bytes → List TextEntry → List TextEntry
prefix_run prefix [] = []
prefix_run prefix (e ∷ es) = if has_prefix prefix e then e ∷ prefix_run prefix es else []

no_prefix :
    (p : Bytes) (x : TextEntry) (xs : List TextEntry)
    → below p x ≡ false
    → has_prefix p x ≡ false
    → All (AtLeast x.key) xs
    → filter (has_prefix p) xs ≡ []
no_prefix p x [] b h a = refl
no_prefix p x (y ∷ xs) b h a = elim (Bool-cases (has_prefix p y)) [
  | inl e ↦ absurd (cc (starts_with_interval p x.key y.key b a.0 e, h))
  | inr e ↦ rw e (no_prefix p x xs b h a.1)
]

-- The keys with a prefix are one run, and it starts at the first key not below the prefix.
pub from_key-prefix_run :
    (p : Bytes) (xs : List TextEntry)
    → KeysSorted xs
    → prefix_run p (from_key p xs) ≡ filter (has_prefix p) xs
from_key-prefix_run p [] s = refl
from_key-prefix_run p (x ∷ xs) s = elim (Bool-cases (has_prefix p x)) [
  | inl e ↦ rw (le-starts_with x.key p e, e) (ap (λ r. x ∷ r) (from_key-prefix_run p xs s.1))
  | inr e ↦ elim (Bool-cases (below p x)) [
    | inl under ↦ rw (under, e) (from_key-prefix_run p xs s.1)
    | inr over ↦ rw (over, e) (sym (no_prefix p x xs over e s.0))
  ]
]
