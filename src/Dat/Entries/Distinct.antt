-- ===== src/Dat/Entries/Distinct.antt =====
-- What the iteration over the entries yields.
use callbook_rs.Prelude.{
  Bool, Bool-cases, Bytes, List, Option, Option-cases, [], ap, ap₂, arith, bytes_eq, bytes_eq_iff,
  cons_some, false, filter_map, if◌then◌else◌, inl, inr, length, length-append, none, refl, subst,
  sym, true, zero, ℕ, ◌+◌, ◌<◌, ◌||◌, ◌∙◌, ◌∷◌, ◌≡◌, ◌≤◌, ◌⊎◌,
}
use callbook_rs.Prelude.TextSet.{insert_text, has_text, has_text-insert_text}
use callbook_rs.Dat.Query.{V2Shard}
use callbook_rs.Dat.Report.{lookup_callsign}
use callbook_rs.Dat.Entries.Candidates.{or_nil, indexed, candidates, IsFirst, next_callsign-IsFirst}
use callbook_rs.Dat.Entries.{
  EntryIter, index_callsign, next_callsign, enter, after_callsign, Item, kept, next_item,
  collect_items, entries_of, left_in, all_entries, some, suc,
}

-- The texts without the repetitions of those seen before.
abbrev pub distinct : List Bytes → List Bytes → List Bytes
distinct seen [] = []
distinct seen (c ∷ cs) =
    let rest = distinct (c ∷ seen) cs in if has_text c seen then distinct seen cs else c ∷ rest

has_text-cons : (x c : Bytes) (s : List Bytes) → has_text x (c ∷ s) ≡ (bytes_eq c x || has_text x s)
unfolding has_text
has_text-cons x c s = refl

-- Only which texts are seen matters.
distinct_congr :
    (s t : List Bytes) (cs : List Bytes)
    → ((x : Bytes) → has_text x s ≡ has_text x t)
    → distinct s cs ≡ distinct t cs
distinct_congr s t [] same = refl
distinct_congr s t (c ∷ cs) same = rw (same c) (
    ap₂ (λ xs ys. if has_text c t then xs else c ∷ ys) (distinct_congr s t cs same)
      (distinct_congr (c ∷ s) (c ∷ t) cs (λ x.
        has_text-cons x c s ∙ ap (λ b. bytes_eq c x || b) (same x) ∙ sym (has_text-cons x c t))))

-- To see a text that has been seen changes nothing.
distinct-again :
    (c : Bytes) (seen : List Bytes) (cs : List Bytes)
    → has_text c seen ≡ true
    → distinct seen cs ≡ distinct (insert_text c seen) cs
distinct-again c seen cs e =
    distinct_congr seen (insert_text c seen) cs
      (λ x. known x (Bool-cases (bytes_eq c x)) ∙ sym (has_text-insert_text x c seen))
  where
    known :
        (x : Bytes)
        → (bytes_eq c x ≡ true) ⊎ (bytes_eq c x ≡ false)
        → has_text x seen ≡ (bytes_eq c x || has_text x seen)
    known x (inl f) =
        let same : c ≡ x = (bytes_eq_iff c x).0 f in
        let h : has_text x seen ≡ true = subst (λ y. has_text y seen ≡ true) same e in
        rw (f, h) refl
    known x (inr f) = rw f refl

distinct-new :
    (c : Bytes) (seen : List Bytes) (cs : List Bytes)
    → distinct (c ∷ seen) cs ≡ distinct (insert_text c seen) cs
distinct-new c seen cs =
    distinct_congr (c ∷ seen) (insert_text c seen) cs
      (λ x. has_text-cons x c seen ∙ sym (has_text-insert_text x c seen))

module _ (is_utf8 : Bytes → Bool) (include_history : Bool) (lookup : Bytes → Item) where
  abbrev items_of : List Bytes → List Bytes → List Item
  items_of seen cs = filter_map (kept is_utf8 include_history lookup) (distinct seen cs)

  abbrev items_left : EntryIter → List Item
  items_left entries = items_of entries.seen (candidates is_utf8 include_history entries)

  abbrev count_left : EntryIter → ℕ
  count_left entries = length (candidates is_utf8 include_history entries)

  -- An item is the first of those left, and leaves the others.
  abbrev Yields : List Item → ℕ → Option (Item × EntryIter) → Type 0
  Yields items n none = items ≡ []
  Yields items n (some (item, rest)) = (items ≡ item ∷ items_left rest) × (count_left rest < n)

  Yields-later :
      (items : List Item) (m n : ℕ) (o : Option (Item × EntryIter))
      → m < n
      → Yields items m o
      → Yields items n o
  Yields-later items m n none lt h = h
  Yields-later items m n (some (item, rest)) lt (h, k) = (h, omega arith)

  after_callsign-Yields :
      (rounds : EntryIter → Option (Item × EntryIter)) (cs seen : List Bytes)
      (step : Option Bytes × EntryIter)
      → IsFirst is_utf8 include_history cs seen step
      → ((entries : EntryIter)
          → count_left entries < length cs
          → Yields (items_left entries) (count_left entries) (rounds entries))
      → Yields
          (items_of seen cs)
          (length cs)
          (after_callsign is_utf8 include_history lookup rounds step)
  after_callsign-Yields rounds cs seen (none, passed) e later = rw e refl
  after_callsign-Yields rounds cs seen (some c, passed) (e, same) later =
      let entered = enter c passed in
      let cands = candidates is_utf8 include_history passed in
      let fewer : count_left entered < length cs = rw e (omega arith) in
      let rest : Yields (items_left entered) (length cs) (rounds entered) =
        Yields-later (items_left entered) (count_left entered) (length cs) (rounds entered) fewer
          (later entered fewer) in
      let all : items_of seen cs ≡ items_of passed.seen (c ∷ cands) = rw (e, same) refl in
      elim (Bool-cases (has_text c passed.seen)) [
        | inl f ↦
            let again : items_of passed.seen (c ∷ cands) ≡ items_left entered = rw f (
              ap (filter_map (kept is_utf8 include_history lookup))
                (distinct-again c passed.seen cands f)) in
            rw f
              (subst (λ items. Yields items (length cs) (rounds entered)) (sym (all ∙ again)) rest)
        | inr f ↦
            let new : items_of passed.seen (c ∷ cands)
                ≡ cons_some (kept is_utf8 include_history lookup c) (items_left entered) =
              rw f (
                ap
                  (λ cs'.
                    cons_some (kept is_utf8 include_history lookup c)
                      (filter_map (kept is_utf8 include_history lookup) cs'))
                  (distinct-new c passed.seen cands)) in
            elim (Option-cases (kept is_utf8 include_history lookup c)) [
              | inl g ↦
                  let skipped : items_of seen cs ≡ items_left entered = all ∙ new ∙ rw g refl in
                  rw (f, g)
                    (subst (λ items. Yields items (length cs) (rounds entered)) (sym skipped) rest)
              | inr (item, g) ↦ rw (f, g) (all ∙ new ∙ rw g refl, fewer)
            ]
      ]

  next_item-Yields :
      (fuel : ℕ) (entries : EntryIter)
      → count_left entries < fuel
      → Yields
          (items_left entries)
          (count_left entries)
          (next_item is_utf8 include_history lookup fuel entries)
  unfolding next_item
  next_item-Yields zero entries h = absurd (omega arith)
  next_item-Yields (suc fuel) entries h =
      after_callsign-Yields (next_item is_utf8 include_history lookup fuel)
        (candidates is_utf8 include_history entries) entries.seen
        (next_callsign is_utf8 include_history entries)
        (next_callsign-IsFirst is_utf8 include_history entries)
        (λ rest lt. next_item-Yields fuel rest (omega arith))

  collect_items-items_left :
      (fuel : ℕ) (entries : EntryIter)
      → count_left entries < fuel
      → collect_items is_utf8 include_history lookup fuel entries ≡ items_left entries
  unfolding collect_items
  collect_items-items_left zero entries h = absurd (omega arith)
  collect_items-items_left (suc fuel) entries h =
      let found = next_item-Yields (suc fuel) entries h in
      elim (Option-cases (next_item is_utf8 include_history lookup (suc fuel) entries)) [
        | inl e ↦
            let nothing : items_left entries ≡ [] = rw e at found in
            rw (collect_items, e) (sym nothing)
        | inr ((item, rest), e) ↦
            let (one, fewer) : (items_left entries ≡ item ∷ items_left rest)
                × (count_left rest < count_left entries) =
              rw e at found in
            rw (collect_items, e)
              (ap (λ r. item ∷ r) (collect_items-items_left fuel rest (omega (arith, fewer)))
                ∙ sym one)
      ]

length-filter_map {ℓ κ} :
    {A : Type ℓ} {B : Type κ} (f : A → Option B) (xs : List A)
    → length (filter_map f xs) ≤ length xs
length-filter_map f [] = omega arith
length-filter_map f (x ∷ xs) = elim (Option-cases (f x)) [
  | inl e ↦ rw e (omega (arith, length-filter_map f xs))
  | inr (b, e) ↦ rw e (omega (arith, length-filter_map f xs))
]

length-or_nil {ℓ} : {A : Type ℓ} (o : Option (List A)) → length (or_nil o) ≡ left_in o
length-or_nil none = refl
length-or_nil (some xs) = refl

-- The candidates of a database are at most as many as the lines and records of its files.
count_left-entries_of :
    (is_utf8 : Bytes → Bool) (include_history : Bool) (shard : Option V2Shard)
    → length (candidates is_utf8 include_history (entries_of shard))
      ≤ left_in (entries_of shard).modern_idx + left_in (entries_of shard).us_csv_callsigns
unfolding entries_of
count_left-entries_of is_utf8 include_history shard =
    let modern = (entries_of shard).modern_idx in
    let us = (entries_of shard).us_csv_callsigns in
    omega (
      arith,
      length-append (indexed is_utf8 include_history (or_nil modern)) (or_nil us),
      length-filter_map (index_callsign is_utf8 include_history) (or_nil modern),
      length-or_nil modern,
      length-or_nil us,
    )

-- The callsigns that the index and then the current-US catalogue name.
abbrev pub named_callsigns : (Bytes → Bool) → Bool → Option V2Shard → List Bytes
named_callsigns is_utf8 include_history shard =
    candidates is_utf8 include_history (entries_of shard)

-- The iteration over the entries of a database ends, and yields what is kept of the lookups of the
-- callsigns that the index and then the current-US catalogue name, in that order and each callsign
-- once; without the history an entry without a current record is left out, and a failed lookup is
-- yielded as its error.
pub all_entries-distinct :
    (is_utf8 : Bytes → Bool) (include_history : Bool) (shard : Option V2Shard)
    → all_entries is_utf8 include_history shard
      ≡ filter_map
          (kept is_utf8 include_history (lookup_callsign shard))
          (distinct [] (named_callsigns is_utf8 include_history shard))
unfolding all_entries entries_of
all_entries-distinct is_utf8 include_history shard =
    collect_items-items_left is_utf8 include_history (lookup_callsign shard)
      (suc (left_in (entries_of shard).modern_idx + left_in (entries_of shard).us_csv_callsigns))
      (entries_of shard) (omega (arith, count_left-entries_of is_utf8 include_history shard))
