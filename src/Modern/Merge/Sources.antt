-- ===== src/Modern/Merge/Sources.antt =====
-- The sources of a merged snapshot: the union of both, in order.
use callbook_rs.Prelude.{
  ==_iff, ==_refl, All, Bool, Bool-cases, List, [], ap, arith, false, inl, inr, leb, leb→le, le→leb,
  refl, sym, true, ℕ, ◌++◌, ◌==◌, ◌||◌, ◌∙◌, ◌∷◌, ◌≡◌, ◌≤◌,
}
use callbook_rs.Modern.Snapshot.{SnapshotSource}
use callbook_rs.Modern.Merge.{rank, contains, push_missing, insert_source, sort_sources}

contains-append :
    (xs : List SnapshotSource) (x s : SnapshotSource)
    → contains (xs ++ (x ∷ [])) s ≡ contains xs s || (rank x == rank s)
unfolding contains
contains-append [] x s = ground arith
contains-append (y ∷ xs) x s = ground (arith, contains-append xs x s)

contains-insert_source :
    (x : SnapshotSource) (xs : List SnapshotSource) (s : SnapshotSource)
    → contains (insert_source x xs) s ≡ (rank x == rank s) || contains xs s
unfolding contains insert_source
contains-insert_source x [] s = ground arith
contains-insert_source x (y ∷ xs) s = ground (arith, contains-insert_source x xs s)

contains-sort_sources :
    (xs : List SnapshotSource) (s : SnapshotSource) → contains (sort_sources xs) s ≡ contains xs s
unfolding contains sort_sources
contains-sort_sources [] s = refl
contains-sort_sources (x ∷ xs) s =
    ground (arith, contains-insert_source x (sort_sources xs) s, contains-sort_sources xs s)

contains-rank :
    (xs : List SnapshotSource) (x s : SnapshotSource)
    → rank x ≡ rank s
    → contains xs x ≡ contains xs s
unfolding contains
contains-rank [] x s e = refl
contains-rank (y ∷ xs) x s e = rw (e, contains-rank xs x s e) refl

or_assoc : (a b c : Bool) → ((a || b) || c) ≡ (a || (b || c))
or_assoc a b c = ground arith

already : (a b c : Bool) → (b ≡ true → a ≡ true) → (a || c) ≡ (a || (b || c))
already true b c h = refl
already false true c h = absurd (ground (arith, h refl))
already false false c h = refl

contains-push_missing :
    (xs ys : List SnapshotSource) (s : SnapshotSource)
    → contains (push_missing xs ys) s ≡ contains xs s || contains ys s
unfolding push_missing
contains-push_missing xs [] s = ground arith
contains-push_missing xs (y ∷ ys) s = elim (Bool-cases (contains xs y)) [
  | inl there ↦ rw there (
      contains-push_missing xs ys s
      ∙ already (contains xs s) (rank y == rank s) (contains ys s)
          (λ e. contains-rank xs s y (sym ((==_iff (rank y) (rank s)).0 e)) ∙ there))
  | inr new ↦ rw new (
      contains-push_missing (xs ++ y ∷ []) ys s
      ∙ ap (λ c. c || contains ys s) (contains-append xs y s)
      ∙ or_assoc (contains xs s) (rank y == rank s) (contains ys s))
]

abbrev pub SourcesSorted : List SnapshotSource → Type 0
SourcesSorted [] = Unit
SourcesSorted (x ∷ xs) = All (λ y. rank x ≤ rank y) xs × SourcesSorted xs

-- What the two steps on the sources yield.
pub contains-sources :
    (xs ys : List SnapshotSource) (s : SnapshotSource)
    → contains (sort_sources (push_missing xs ys)) s ≡ contains xs s || contains ys s
contains-sources xs ys s =
    contains-sort_sources (push_missing xs ys) s ∙ contains-push_missing xs ys s

-- Pushing sources that are all there, and sorting a sorted list, change nothing.
push_missing_none :
    (xs ys : List SnapshotSource) → All (λ y. contains xs y ≡ true) ys → push_missing xs ys ≡ xs
unfolding push_missing
push_missing_none xs [] h = refl
push_missing_none xs (y ∷ ys) h = rw h.0 (push_missing_none xs ys h.1)

insert_source_first :
    (x : SnapshotSource) (xs : List SnapshotSource)
    → All (λ y. rank x ≤ rank y) xs
    → insert_source x xs ≡ x ∷ xs
unfolding insert_source
insert_source_first x [] h = refl
insert_source_first x (y ∷ xs) h = rw (le→leb (rank x) (rank y) h.0) refl

sort_sources_sorted : (xs : List SnapshotSource) → SourcesSorted xs → sort_sources xs ≡ xs
unfolding sort_sources
sort_sources_sorted [] s = refl
sort_sources_sorted (x ∷ xs) s =
    ap (insert_source x) (sort_sources_sorted xs s.1) ∙ insert_source_first x xs s.0

rank-insert_source :
    (n : ℕ) (x : SnapshotSource) (xs : List SnapshotSource)
    → n ≤ rank x
    → All (λ y. n ≤ rank y) xs
    → All (λ y. n ≤ rank y) (insert_source x xs)
unfolding insert_source
rank-insert_source n x [] h a = (h, tt)
rank-insert_source n x (y ∷ xs) h a = elim (Bool-cases (leb (rank x) (rank y))) [
  | inl e ↦ rw e (h, a)
  | inr e ↦ rw e (a.0, rank-insert_source n x xs h a.1)
]

rank_trans :
    (n m : ℕ) (xs : List SnapshotSource)
    → n ≤ m
    → All (λ y. m ≤ rank y) xs
    → All (λ y. n ≤ rank y) xs
rank_trans n m [] h a = tt
rank_trans n m (y ∷ xs) h a = (omega (arith, a.0), rank_trans n m xs h a.1)

insert_source-SourcesSorted :
    (x : SnapshotSource) (xs : List SnapshotSource)
    → SourcesSorted xs
    → SourcesSorted (insert_source x xs)
unfolding insert_source
insert_source-SourcesSorted x [] s = (tt, tt)
insert_source-SourcesSorted x (y ∷ xs) s = elim (Bool-cases (leb (rank x) (rank y))) [
  | inl e ↦
      let h = leb→le (rank x) (rank y) e in rw e ((h, rank_trans (rank x) (rank y) xs h s.0), s)
  | inr e ↦
      let h : rank y ≤ rank x = ground arith in
      rw e (rank-insert_source (rank y) x xs h s.0, insert_source-SourcesSorted x xs s.1)
]

pub sort_sources-SourcesSorted : (xs : List SnapshotSource) → SourcesSorted (sort_sources xs)
unfolding sort_sources
sort_sources-SourcesSorted [] = tt
sort_sources-SourcesSorted (x ∷ xs) =
    insert_source-SourcesSorted x (sort_sources xs) (sort_sources-SourcesSorted xs)

All-others :
    (xs ys zs : List SnapshotSource)
    → ((s : SnapshotSource) → contains ys s ≡ true → contains xs s ≡ true)
    → ((s : SnapshotSource) → contains zs s ≡ true → contains ys s ≡ true)
    → All (λ y. contains xs y ≡ true) zs
unfolding contains
All-others xs ys [] f g = tt
All-others xs ys (z ∷ zs) f g = (
  f z (g z (ground (arith, ==_refl (rank z)))),
  All-others xs ys zs f (λ s h. g s (ground (arith, h))),
)

pub sources_again :
    (xs ys : List SnapshotSource)
    → sort_sources (push_missing (sort_sources (push_missing xs ys)) ys)
      ≡ sort_sources (push_missing xs ys)
sources_again xs ys =
    let once = sort_sources (push_missing xs ys) in
    ap sort_sources (
      push_missing_none once ys
        (All-others once ys ys (λ s h. contains-sources xs ys s ∙ ground (arith, h)) (λ s h. h)))
    ∙ sort_sources_sorted once (sort_sources-SourcesSorted (push_missing xs ys))
