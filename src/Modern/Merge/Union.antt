-- ===== src/Modern/Merge/Union.antt =====
-- Merging as a union: what it does to tags, to a fresh snapshot, and when it is repeated.
use callbook_rs.Prelude.{
  Bool, Bool-cases, Bytes, List, Option, [], arith, is_empty, is_some, none, refl, some, ℕ, ◌&&◌,
  ◌||◌, ◌∷◌, ◌≡◌, inl, inr,
}
use callbook_rs.Modern.Snapshot.{
  CallSnapshot, SnapshotSource, new, Jurisdiction, unknown, united_states, canada, international,
}
use callbook_rs.Modern.Tags.{get}
use callbook_rs.Modern.Tags.Lookup.{TagsSorted, or_else, get-extend}
use callbook_rs.Modern.Tags.Again.{extend-extend, extend-nil}
use callbook_rs.Modern.Merge.{
  merge_missing_from, fill, merged_last_name, push_missing, sort_sources, known_or, if_empty,
  replace, contains,
}
use callbook_rs.Modern.Merge.Sources.{
  sources_again, contains-sources, SourcesSorted, sort_sources-SourcesSorted,
}

fill-fill : (a b : Option Bytes) → fill (fill a b) b ≡ fill a b
unfolding fill
fill-fill none none = refl
fill-fill none (some s) = ground arith
fill-fill (some s) b = ground (arith, Bool-cases (is_empty s))

-- Of two values of one tag the merged snapshot keeps that of the other snapshot, and it keeps the
-- tags that only one of them has.
pub get-merge_missing_from :
    (n : ℕ) (self other : CallSnapshot)
    → TagsSorted other.raw_tags
    → get n (merge_missing_from self other).raw_tags
      ≡ or_else (get n other.raw_tags) (get n self.raw_tags)
unfolding merge_missing_from
get-merge_missing_from n self other sorted = get-extend n self.raw_tags other.raw_tags sorted

last_name_fresh : (f m l : Option Bytes) → merged_last_name f (is_some f || is_some m) none l ≡ l
unfolding merged_last_name fill
last_name_fresh none m l = ground (arith, Bool-cases (is_some m))
last_name_fresh (some f) m none = refl
last_name_fresh (some f) m (some l) = refl

-- Merging into a fresh snapshot copies all of the other one but its callsign and vintage, and adds
-- the source.
pub merge_missing_from-new :
    (callsign : Bytes) (vintage : Option ℕ) (source : SnapshotSource) (other : CallSnapshot)
    → TagsSorted other.raw_tags
    → merge_missing_from (new callsign vintage source) other ≡ record other {
      callsign = callsign;
      vintage = vintage;
      sources = sort_sources (push_missing (source ∷ []) other.sources);
    }
unfolding merge_missing_from fill
merge_missing_from-new callsign vintage source other sorted =
    rw
      (
        extend-nil other.raw_tags sorted,
        last_name_fresh other.first_name other.middle_name other.last_name,
      )
      refl

replace_again : (l o : Option Bytes) → replace (replace l o) o ≡ replace l o
replace_again l none = refl
replace_again l (some o) = refl

last_name_again :
    (f : Option Bytes) (split : Bool) (l o : Option Bytes)
    → merged_last_name f split (merged_last_name f split l o) o ≡ merged_last_name f split l o
unfolding merged_last_name
last_name_again f split l o = elim (Bool-cases (split && is_some f)) [
  | inl e ↦ rw e (replace_again l o)
  | inr e ↦ rw e (fill-fill l o)
]

known_or_again : (a b : Jurisdiction) → known_or (known_or a b) b ≡ known_or a b
known_or_again unknown unknown = refl
known_or_again unknown united_states = refl
known_or_again unknown canada = refl
known_or_again unknown international = refl
known_or_again united_states b = refl
known_or_again canada b = refl
known_or_again international b = refl

if_empty_again {ℓ} : {A : Type ℓ} (xs ys : List A) → if_empty (if_empty xs ys) ys ≡ if_empty xs ys
if_empty_again [] [] = refl
if_empty_again [] (y ∷ ys) = refl
if_empty_again (x ∷ xs) ys = refl

-- Merging the same snapshot a second time changes nothing.
pub merge_missing_from-merge_missing_from :
    (self other : CallSnapshot)
    → TagsSorted other.raw_tags
    → merge_missing_from (merge_missing_from self other) other ≡ merge_missing_from self other
unfolding merge_missing_from
merge_missing_from-merge_missing_from self other sorted = simp (
  fill-fill,
  last_name_again,
  known_or_again,
  if_empty_again,
  sources_again,
  extend-extend self.raw_tags other.raw_tags sorted,
)

-- A merged snapshot names exactly the sources of the two, in the derived order.
pub sources-merge_missing_from :
    (self other : CallSnapshot)
    → SourcesSorted (merge_missing_from self other).sources
      × ((s : SnapshotSource)
          → contains (merge_missing_from self other).sources s
            ≡ contains self.sources s || contains other.sources s)
unfolding merge_missing_from
sources-merge_missing_from self other = (
  sort_sources-SourcesSorted (push_missing self.sources other.sources),
  λ s. contains-sources self.sources other.sources s,
)
