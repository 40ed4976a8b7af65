-- ===== src/Sidecar/Search.antt =====
-- The binary search of `LookupCountFile::lookup` against a search slot by slot.
use callbook_rs.Prelude.{
  ==_iff, Bool, Bool-cases, Bytes, Option, Option-cases, ap, arith, bytes_eq, bytes_eq_iff,
  bytes_eq_refl, false, if◌then◌else◌, inl, inr, ltb, ltb→lt, lt→ltb, none, refl, some,
  some-injective, subst, suc, sym, true, zero, ℕ, ◌+◌, ◌-◌, ◌/◌, ◌<◌, ◌==◌, ◌∙◌, ◌≡◌, ◌≢◌, ◌≤◌, ◌⊎◌,
}
use callbook_rs.Prelude.Order.{lt_bytes, lt_bytes_irrefl, lt_bytes_asym, lt_bytes_connex}
use callbook_rs.Sidecar.Counts.{narrow, search_slots}

-- The order of the keys of slots: a slot without a key stands before every slot with one.
abbrev pub key_precedes : Option Bytes → Option Bytes → Bool
key_precedes none b = true
key_precedes (some a) none = false
key_precedes (some a) (some b) = lt_bytes a b

abbrev pub KeysAscend : (ℕ → Option Bytes) → ℕ → ℕ → Type 0
KeysAscend key_at low high =
    (i j : ℕ) → low ≤ i → i < j → j < high → key_precedes (key_at i) (key_at j) ≡ true

abbrev pub has_key : Bytes → Option Bytes → Bool
has_key key none = false
has_key key (some k) = bytes_eq k key

-- The first of `count` slots from `low` on with the key.
unfoldable pub first_slot : (ℕ → Option Bytes) → Bytes → ℕ → ℕ → Option ℕ
unfolding bytes_eq
first_slot key_at key zero low = none
first_slot key_at key (suc count) low =
    let rest = first_slot key_at key count (low + 1) in
    if has_key key (key_at low) then some low else rest

pub has_key-eq : (key : Bytes) (o : Option Bytes) → has_key key o ≡ true → o ≡ some key
has_key-eq key none h = ground arith
has_key-eq key (some k) h = ap some ((bytes_eq_iff k key).0 h)

-- What a step knows of the key it has seen.
narrow-cases :
    (key : Bytes) (low high mid : ℕ) (o : Option Bytes)
    → ((narrow key low high mid o ≡ inl (mid + 1, high)) × (key_precedes o (some key) ≡ true))
      ⊎ (((narrow key low high mid o ≡ inl (low, mid)) × (key_precedes (some key) o ≡ true))
          ⊎ ((narrow key low high mid o ≡ inr mid) × (o ≡ some key)))
unfolding narrow
narrow-cases key low high mid none = inl (refl, refl)
narrow-cases key low high mid (some k) = elim (Bool-cases (lt_bytes k key)) [
  | inl e ↦ inl (rw e refl, e)
  | inr e ↦ elim (Bool-cases (lt_bytes key k)) [
    | inl f ↦ inr (inl (rw (e, f) refl, f))
    | inr f ↦ inr (inr (rw (e, f) refl, ap some (lt_bytes_connex k key e f)))
  ]
]

key_precedes_irrefl :
    (key : Bytes) (o : Option Bytes) → o ≡ some key → key_precedes o (some key) ≡ false
key_precedes_irrefl key o h = rw h (lt_bytes_irrefl key)

key_precedes_asym :
    (key : Bytes) (o : Option Bytes)
    → key_precedes o (some key) ≡ true
    → key_precedes (some key) o ≡ false
key_precedes_asym key none h = refl
key_precedes_asym key (some k) h = lt_bytes_asym k key h

-- A slot whose key key_precedes the key that is looked up stands before the slot with that key.
stands_before :
    (key_at : ℕ → Option Bytes) (key : Bytes) (low high i mid : ℕ)
    → KeysAscend key_at low high
    → low ≤ i
    → mid < high
    → key_at i ≡ some key
    → key_precedes (key_at mid) (some key) ≡ true
    → mid < i
stands_before key_at key low high i mid asc li mh e p = elim (Bool-cases (ltb mid i)) [
  | inl h ↦ ltb→lt mid i h
  | inr h ↦ elim (Bool-cases (i == mid)) [
    | inl same ↦ absurd (
        ground (
          arith,
          key_precedes_irrefl key (key_at mid)
              (subst (λ n. key_at n ≡ some key) ((==_iff i mid).0 same) e),
        ))
    | inr other ↦
        let q : key_precedes (some key) (key_at mid) ≡ true =
          subst (λ o. key_precedes o (key_at mid) ≡ true) e (asc i mid li (ground arith) mh) in
        absurd (ground (arith, key_precedes_asym key (key_at mid) p))
  ]
]

stands_after :
    (key_at : ℕ → Option Bytes) (key : Bytes) (low high i mid : ℕ)
    → KeysAscend key_at low high
    → low ≤ mid
    → i < high
    → key_at i ≡ some key
    → key_precedes (some key) (key_at mid) ≡ true
    → i < mid
stands_after key_at key low high i mid asc lm ih e p = elim (Bool-cases (ltb i mid)) [
  | inl h ↦ ltb→lt i mid h
  | inr h ↦ elim (Bool-cases (i == mid)) [
    | inl same ↦
        let em : key_at mid ≡ some key =
          subst (λ n. key_at n ≡ some key) ((==_iff i mid).0 same) e in
        let q : lt_bytes key key ≡ true = rw em at p in absurd (ground (arith, lt_bytes_irrefl key))
    | inr other ↦
        let q : key_precedes (key_at mid) (some key) ≡ true =
          subst (λ o. key_precedes (key_at mid) o ≡ true) e (asc mid i lm (ground arith) ih) in
        absurd (ground (arith, key_precedes_asym key (key_at mid) q))
  ]
]

pub two_slots :
    (key_at : ℕ → Option Bytes) (key : Bytes) (low high i j : ℕ)
    → KeysAscend key_at low high
    → low ≤ i
    → i < j
    → j < high
    → key_at i ≡ some key
    → key_at j ≢ some key
two_slots key_at key low high i j asc li lt jh ki kj =
    let p : lt_bytes key key ≡ true =
      subst (λ o. key_precedes (some key) o ≡ true) kj
        (subst (λ o. key_precedes o (key_at j) ≡ true) ki (asc i j li lt jh)) in
    absurd (ground (arith, lt_bytes_irrefl key))

-- No two slots have the same key.
pub only_slot :
    (key_at : ℕ → Option Bytes) (key : Bytes) (low high i j : ℕ)
    → KeysAscend key_at low high
    → low ≤ i
    → i < high
    → low ≤ j
    → j < high
    → key_at i ≡ some key
    → key_at j ≡ some key
    → i ≡ j
only_slot key_at key low high i j asc li ih lj jh ki kj = elim (Bool-cases (ltb i j)) [
  | inl lt ↦ absurd (two_slots key_at key low high i j asc li (ltb→lt i j lt) jh ki kj)
  | inr ge ↦ elim (Bool-cases (ltb j i)) [
    | inl lt ↦ absurd (two_slots key_at key low high j i asc lj (ltb→lt j i lt) ih kj ki)
    | inr le ↦ ground arith
  ]
]

-- A slot that the search ends at is in the range and has the key.
pub search_slots-found :
    (key_at : ℕ → Option Bytes) (key : Bytes) (fuel low high i : ℕ)
    → search_slots key_at key fuel low high ≡ some i
    → (low ≤ i) × (i < high) × (key_at i ≡ some key)
unfolding search_slots
search_slots-found key_at key zero low high i h = ground arith
search_slots-found key_at key (suc fuel) low high i h =
    let mid = low + (high - low) / 2 in
    elim (Bool-cases (ltb low high)) [
      | inr e ↦ let no : none ≡ some i = rw e at h in absurd (ground arith)
      | inl e ↦
          let lt : low < high = ltb→lt low high e in
          elim (narrow-cases key low high mid (key_at mid)) [
            | inl (step, _) ↦
                let (a, b, c) =
                  search_slots-found key_at key fuel (mid + 1) high i (rw (e, step) at h) in
                (omega arith, b, c)
            | inr (inl (step, _)) ↦
                let (a, b, c) = search_slots-found key_at key fuel low mid i (rw (e, step) at h) in
                (a, omega arith, c)
            | inr (inr (step, k)) ↦
                let same : mid ≡ i = some-injective (rw (e, step) at h) in
                (omega arith, omega arith, subst (λ n. key_at n ≡ some key) same k)
          ]
    ]

-- The search ends at the slot with the key, where the keys ascend.
pub search_slots-finds :
    (key_at : ℕ → Option Bytes) (key : Bytes) (fuel low high i : ℕ)
    → KeysAscend key_at low high
    → low ≤ i
    → i < high
    → key_at i ≡ some key
    → high - low < fuel
    → search_slots key_at key fuel low high ≡ some i
unfolding search_slots
search_slots-finds key_at key zero low high i asc li ih k enough = absurd (omega arith)
search_slots-finds key_at key (suc fuel) low high i asc li ih k enough =
    let mid = low + (high - low) / 2 in
    let e : ltb low high ≡ true = lt→ltb low high (omega arith) in
    elim (narrow-cases key low high mid (key_at mid)) [
      | inl (step, p) ↦
          let before : mid < i = stands_before key_at key low high i mid asc li (omega arith) k p in
          rw (e, step)
            (search_slots-finds key_at key fuel (mid + 1) high i
              (λ a b la ab bh. asc a b (omega arith) ab bh) (omega arith) ih k (omega arith))
      | inr (inl (step, p)) ↦
          let after : i < mid = stands_after key_at key low high i mid asc (omega arith) ih k p in
          rw (e, step)
            (search_slots-finds key_at key fuel low mid i
              (λ a b la ab bh. asc a b la ab (omega arith)) li after k (omega arith))
      | inr (inr (step, km)) ↦
          rw (e, step)
            (ap some
              (only_slot key_at key low high mid i asc (omega arith) (omega arith) li ih km k))
    ]

pub first_slot-found :
    (key_at : ℕ → Option Bytes) (key : Bytes) (count low i : ℕ)
    → first_slot key_at key count low ≡ some i
    → (low ≤ i) × (i < low + count) × (key_at i ≡ some key)
unfolding first_slot
first_slot-found key_at key zero low i h = ground arith
first_slot-found key_at key (suc count) low i h = elim (Bool-cases (has_key key (key_at low))) [
  | inl e ↦
      let same : low ≡ i = some-injective (rw e at h) in
      (
        omega arith,
        omega arith,
        subst (λ n. key_at n ≡ some key) same (has_key-eq key (key_at low) e),
      )
  | inr e ↦
      let (a, b, c) = first_slot-found key_at key count (low + 1) i (rw e at h) in
      (omega arith, omega arith, c)
]

first_slot-none :
    (key_at : ℕ → Option Bytes) (key : Bytes) (count low i : ℕ)
    → first_slot key_at key count low ≡ none
    → low ≤ i
    → i < low + count
    → key_at i ≢ some key
unfolding first_slot
first_slot-none key_at key zero low i h li ih k = absurd (omega arith)
first_slot-none key_at key (suc count) low i h li ih k =
    elim (Bool-cases (has_key key (key_at low))) [
      | inl e ↦ let no : some low ≡ none = rw e at h in absurd (ground arith)
      | inr e ↦ elim (Bool-cases (low == i)) [
        | inl same ↦
            let kl : key_at low ≡ some key =
              subst (λ n. key_at n ≡ some key) (sym ((==_iff low i).0 same)) k in
            let no : bytes_eq key key ≡ false = rw kl at e in
            absurd (ground (arith, bytes_eq_refl key))
        | inr other ↦
            first_slot-none key_at key count (low + 1) i (rw e at h) (ground arith) (omega arith) k
      ]
    ]

-- Where the keys ascend, the binary search is the search slot by slot.
pub search_slots-first_slot :
    (key_at : ℕ → Option Bytes) (key : Bytes) (low count : ℕ)
    → KeysAscend key_at low (low + count)
    → search_slots key_at key (suc count) low (low + count) ≡ first_slot key_at key count low
search_slots-first_slot key_at key low count asc =
    elim (Option-cases (first_slot key_at key count low)) [
      | inr (i, e) ↦
          let (a, b, c) = first_slot-found key_at key count low i e in
          search_slots-finds key_at key (suc count) low (low + count) i asc a b c (omega arith)
          ∙ sym e
      | inl e ↦ elim (Option-cases (search_slots key_at key (suc count) low (low + count))) [
        | inl f ↦ f ∙ sym e
        | inr (i, f) ↦
            let (a, b, c) = search_slots-found key_at key (suc count) low (low + count) i f in
            absurd (first_slot-none key_at key count low i e a b c)
      ]
    ]
