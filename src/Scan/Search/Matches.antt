-- ===== src/Scan/Search/Matches.antt =====
-- What a search for an interest code finds.
use callbook_rs.Prelude.{
  none, some, cons_some-append, ==_iff, Bool, Bool-cases, Bytes, List, Option, [], and-true, any,
  ap, append-nil, append_assoc, ap₂, arith, bytes_eq, bytes_eq_iff, cons_some, false, filter_map,
  inl, inr, refl, subst, sym, true, ℕ, ◌++◌, ◌==◌, ◌||◌, ◌∙◌, ◌∷◌, ◌≡◌,
}
use callbook_rs.Prelude.Order.{lt_bytes_irrefl, lt_bytes_asym, lt_bytes_connex}
use callbook_rs.Cipher.{decode_from}
use callbook_rs.Report.{vintage_rank}
use callbook_rs.Scan.{scan_dat}
use callbook_rs.Scan.Value.{until_tag, interest_value}
use callbook_rs.Scan.Bodies.{records_in, visit_records, scan_dat-visit_records}
use callbook_rs.Scan.Search.{
  InterestSearchMatch, match_lt, insert_match, sort_matches, same_match, dedup_after, dedup_matches,
  finish_search, search_match, finish_search_record, scan_interest_code,
}

-- `xs` ascends, each element not above the next.
abbrev NotAbove : InterestSearchMatch → List InterestSearchMatch → Type 0
NotAbove x [] = Unit
NotAbove x (y ∷ ys) = (match_lt y x ≡ false) × NotAbove y ys

abbrev IsSorted : List InterestSearchMatch → Type 0
IsSorted [] = Unit
IsSorted (x ∷ xs) = NotAbove x xs

-- Each element is strictly below the next.
abbrev pub Below : InterestSearchMatch → List InterestSearchMatch → Type 0
Below x [] = Unit
Below x (y ∷ ys) = (match_lt x y ≡ true) × Below y ys

abbrev pub Ascends : List InterestSearchMatch → Type 0
Ascends [] = Unit
Ascends (x ∷ xs) = Below x xs

match_lt_asym : (a b : InterestSearchMatch) → match_lt a b ≡ true → match_lt b a ≡ false
unfolding match_lt
match_lt_asym a b h = ground (
  arith,
  lt_bytes_asym a.callsign b.callsign,
  lt_bytes_irrefl a.callsign,
  bytes_eq_iff a.callsign b.callsign,
  bytes_eq_iff b.callsign a.callsign,
)

match_lt_connex :
    (a b : InterestSearchMatch)
    → match_lt a b ≡ false
    → same_match a b ≡ false
    → match_lt b a ≡ true
unfolding match_lt same_match
match_lt_connex a b h s = ground (
  arith,
  lt_bytes_connex a.callsign b.callsign,
  bytes_eq_iff a.callsign b.callsign,
  bytes_eq_iff b.callsign a.callsign,
)

vintage_rank_injective : (v w : Option ℕ) → vintage_rank v ≡ vintage_rank w → v ≡ w
vintage_rank_injective none none h = refl
vintage_rank_injective none (some w) h = absurd (omega arith)
vintage_rank_injective (some v) none h = absurd (omega arith)
vintage_rank_injective (some v) (some w) h = ap some (omega arith)

same_match-eq : (a b : InterestSearchMatch) → same_match a b ≡ true → a ≡ b
unfolding same_match
same_match-eq a b h =
    let (c, v) =
      and-true (bytes_eq a.callsign b.callsign) (vintage_rank a.vintage == vintage_rank b.vintage)
        h in
    ap₂ (λ x y. record { callsign = x; vintage = y }) ((bytes_eq_iff a.callsign b.callsign).0 c)
      (vintage_rank_injective a.vintage b.vintage
        ((==_iff (vintage_rank a.vintage) (vintage_rank b.vintage)).0 v))

insert_match-NotAbove :
    (low found : InterestSearchMatch) (xs : List InterestSearchMatch)
    → match_lt found low ≡ false
    → NotAbove low xs
    → NotAbove low (insert_match found xs)
unfolding insert_match
insert_match-NotAbove low found [] f h = (f, tt)
insert_match-NotAbove low found (x ∷ xs) f h = elim (Bool-cases (match_lt x found)) [
  | inl e ↦ rw e (h.0, insert_match-NotAbove x found xs (match_lt_asym x found e) h.1)
  | inr e ↦ rw e (f, (e, h.1))
]

insert_match-IsSorted :
    (found : InterestSearchMatch) (xs : List InterestSearchMatch)
    → IsSorted xs
    → IsSorted (insert_match found xs)
unfolding insert_match
insert_match-IsSorted found [] h = tt
insert_match-IsSorted found (x ∷ xs) h = elim (Bool-cases (match_lt x found)) [
  | inl e ↦ rw e (insert_match-NotAbove x found xs (match_lt_asym x found e) h)
  | inr e ↦ rw e (e, h)
]

sort_matches-IsSorted : (xs : List InterestSearchMatch) → IsSorted (sort_matches xs)
unfolding sort_matches
sort_matches-IsSorted [] = tt
sort_matches-IsSorted (x ∷ xs) =
    insert_match-IsSorted x (sort_matches xs) (sort_matches-IsSorted xs)

dedup_after-Below :
    (last : InterestSearchMatch) (xs : List InterestSearchMatch)
    → NotAbove last xs
    → Below last (dedup_after last xs)
unfolding dedup_after
dedup_after-Below last [] h = tt
dedup_after-Below last (x ∷ xs) h = elim (Bool-cases (same_match x last)) [
  | inl e ↦
      rw e (dedup_after-Below last xs (subst (λ m. NotAbove m xs) (same_match-eq x last e) h.1))
  | inr e ↦ rw e (match_lt_connex x last h.0 e, dedup_after-Below x xs h.1)
]

any-insert_match :
    (p : InterestSearchMatch → Bool) (x : InterestSearchMatch) (xs : List InterestSearchMatch)
    → any p (insert_match x xs) ≡ (p x || any p xs)
unfolding insert_match
any-insert_match p x [] = refl
any-insert_match p x (y ∷ ys) = elim (Bool-cases (match_lt y x)) [
  | inl e ↦ rw (e, any-insert_match p x ys) (or_swap (p y) (p x) (any p ys))
  | inr e ↦ rw e refl
]
  where
    or_swap : (a b c : Bool) → (a || (b || c)) ≡ (b || (a || c))
    or_swap a b c = ground arith

any-sort_matches :
    (p : InterestSearchMatch → Bool) (xs : List InterestSearchMatch)
    → any p (sort_matches xs) ≡ any p xs
unfolding sort_matches
any-sort_matches p [] = refl
any-sort_matches p (x ∷ xs) =
    any-insert_match p x (sort_matches xs) ∙ ap (λ b. p x || b) (any-sort_matches p xs)

any-dedup_after :
    (p : InterestSearchMatch → Bool) (last : InterestSearchMatch) (xs : List InterestSearchMatch)
    → (p last || any p (dedup_after last xs)) ≡ (p last || any p xs)
unfolding dedup_after
any-dedup_after p last [] = refl
any-dedup_after p last (x ∷ xs) = elim (Bool-cases (same_match x last)) [
  | inr e ↦ rw e (ap (λ b. p last || b) (any-dedup_after p x xs))
  | inl e ↦ rw e (
      any-dedup_after p last xs
      ∙ twice (p last) (any p xs)
      ∙ ap (λ m. p last || (p m || any p xs)) (sym (same_match-eq x last e)))
]
  where
    twice : (a b : Bool) → (a || b) ≡ (a || (a || b))
    twice a b = ground arith

dedup_matches-Ascends : (xs : List InterestSearchMatch) → IsSorted xs → Ascends (dedup_matches xs)
unfolding dedup_matches
dedup_matches-Ascends [] h = tt
dedup_matches-Ascends (x ∷ xs) h = dedup_after-Below x xs h

any-dedup_matches :
    (p : InterestSearchMatch → Bool) (xs : List InterestSearchMatch)
    → any p (dedup_matches xs) ≡ any p xs
unfolding dedup_matches
any-dedup_matches p [] = refl
any-dedup_matches p (x ∷ xs) = any-dedup_after p x xs

module _ (from_utf8_lossy : Bytes → Bytes) where
  -- The matches of the records between the marks, in the order of the file.
  abbrev pub matches_of : Bytes → List Bytes → List InterestSearchMatch
  matches_of target bodies =
      filter_map
        (λ body. search_match from_utf8_lossy target (until_tag body) (interest_value body)) bodies

  abbrev visit : Bytes → Bytes → Bytes → List InterestSearchMatch → List InterestSearchMatch
  visit target key raw found = found ++ cons_some (search_match from_utf8_lossy target key raw) []

  visit_records-matches_of :
      (target : Bytes) (bodies : List Bytes) (found : List InterestSearchMatch)
      → visit_records (visit target) bodies found ≡ found ++ matches_of target bodies
  visit_records-matches_of target [] found = sym (append-nil found)
  visit_records-matches_of target (body ∷ bodies) found =
      let one = search_match from_utf8_lossy target (until_tag body) (interest_value body) in
      visit_records-matches_of target bodies (found ++ cons_some one [])
      ∙ append_assoc found (cons_some one []) (matches_of target bodies)
      ∙ ap (λ xs. found ++ xs) (cons_some-append one (matches_of target bodies))

  scanned :
      (encoded target : Bytes)
      → scan_dat (finish_search_record from_utf8_lossy target) encoded []
        ≡ matches_of target (records_in (decode_from 0 encoded))
  unfolding finish_search_record
  scanned encoded target =
      scan_dat-visit_records (finish_search_record from_utf8_lossy target) (visit target) encoded []
        (λ scan m e. rw e refl) (λ m. refl)
      ∙ visit_records-matches_of target (records_in (decode_from 0 encoded)) []

  -- The matches of a search are, in strictly ascending order of callsign and year and so each once,
  -- exactly those of the records between the marks of the decoded file whose key is a callsign with
  -- or without a year, and whose last interest tag has the code among its codes.
  pub scan_interest_code-matches_of :
      (encoded target : Bytes)
      → Ascends (scan_interest_code from_utf8_lossy encoded target)
        × ((p : InterestSearchMatch → Bool)
            → any p (scan_interest_code from_utf8_lossy encoded target)
              ≡ any p (matches_of target (records_in (decode_from 0 encoded))))
  unfolding scan_interest_code finish_search
  scan_interest_code-matches_of encoded target =
      let found = scan_dat (finish_search_record from_utf8_lossy target) encoded [] in
      (
        dedup_matches-Ascends (sort_matches found) (sort_matches-IsSorted found),
        λ p.
            any-dedup_matches p (sort_matches found)
            ∙ any-sort_matches p found
            ∙ ap (any p) (scanned encoded target),
      )
