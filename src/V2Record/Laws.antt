-- ===== src/V2Record/Laws.antt =====
-- The three parsers of decoded bytes against the records between the marks.
use callbook_rs.Prelude.{
  Bool, Bool-cases, Bytes, List, Option, Option-cases, [], ap, arith, cons_some, drop, false,
  filter, filter_map, if◌then◌else◌, inl, inr, length, refl, sym, take, true, ℕ, ◌++◌, ◌∙◌, ◌∷◌,
  ◌≡◌,
}
use callbook_rs.Prelude.Text.{concat}
use callbook_rs.Modern.Snapshot.{CallSnapshot}
use callbook_rs.V2Record.Text.{ascii_eq_ignore_case}
use callbook_rs.V2Record.Segment.{
  Tables, parse_segment, segment_matches, matching_segment, is_mark, parse_snapshots,
  parse_matching_snapshots, parse_complete_matching_snapshots,
}
use callbook_rs.V2Record.Match.{segment_matches-parse_segment}
use callbook_rs.V2Record.Cut.{
  cut, all_but_last, visit_segments-cut, visit_complete-cut, concat-cut, cut-cons, attach_mark,
  until_mark,
}

abbrev pub has_callsign : Bytes → CallSnapshot → Bool
has_callsign callsign s = ascii_eq_ignore_case s.callsign callsign

matching_segment-parse_segment :
    (tables : Tables) (default_key : Option Bytes) (callsign segment : Bytes)
    (rest : List CallSnapshot)
    → cons_some
        (matching_segment tables default_key callsign segment)
        (filter (has_callsign callsign) rest)
      ≡ filter (has_callsign callsign) (cons_some (parse_segment tables default_key segment) rest)
matching_segment-parse_segment tables dk cs segment rest =
    elim (Option-cases (parse_segment tables dk segment)) [
      | inl e ↦ elim (Bool-cases (segment_matches dk cs segment)) [
        | inl f ↦ rw (f, e) refl
        | inr f ↦ rw (f, e) refl
      ]
      | inr (s, e) ↦
          let same = segment_matches-parse_segment tables dk cs segment s e in
          elim (Bool-cases (segment_matches dk cs segment)) [
            | inl f ↦
                let is : has_callsign cs s ≡ true = sym same ∙ f in
                rw (f, e)
                  (ap
                    (λ b.
                      if b
                      then s ∷ filter (has_callsign cs) rest
                      else filter (has_callsign cs) rest)
                    (sym is))
            | inr f ↦
                let is : has_callsign cs s ≡ false = sym same ∙ f in
                rw (f, e)
                  (ap
                    (λ b.
                      if b
                      then s ∷ filter (has_callsign cs) rest
                      else filter (has_callsign cs) rest)
                    (sym is))
          ]
    ]

pub filter_map-matching_segment :
    (tables : Tables) (default_key : Option Bytes) (callsign : Bytes) (segments : List Bytes)
    → filter_map (matching_segment tables default_key callsign) segments
      ≡ filter (has_callsign callsign) (filter_map (parse_segment tables default_key) segments)
filter_map-matching_segment tables dk cs [] = refl
filter_map-matching_segment tables dk cs (segment ∷ segments) =
    ap (cons_some (matching_segment tables dk cs segment))
      (filter_map-matching_segment tables dk cs segments)
    ∙ matching_segment-parse_segment tables dk cs segment
        (filter_map (parse_segment tables dk) segments)

-- The loop of `parse_snapshots` ends, and parses each of the pieces that the decoded bytes are cut
-- into in front of every mark, in order; these pieces together are all of the bytes.
pub parse_snapshots-cut :
    (tables : Tables) (default_key : Option Bytes) (decoded : Bytes)
    → (parse_snapshots tables default_key decoded
        ≡ filter_map (parse_segment tables default_key) (cut decoded))
      × (concat (cut decoded) ≡ decoded)
unfolding parse_snapshots
parse_snapshots-cut tables dk decoded = (
  visit_segments-cut (parse_segment tables dk) (length decoded) decoded (omega arith),
  concat-cut decoded,
)

-- `parse_matching_snapshots` returns the snapshots of `parse_snapshots` whose callsign equals the
-- one searched for up to ASCII case, in order: its test of a segment before parsing loses none and
-- adds none.
pub parse_matching_snapshots-parse_snapshots :
    (tables : Tables) (default_key : Option Bytes) (callsign decoded : Bytes)
    → parse_matching_snapshots tables default_key callsign decoded
      ≡ filter (has_callsign callsign) (parse_snapshots tables default_key decoded)
unfolding parse_matching_snapshots
parse_matching_snapshots-parse_snapshots tables dk cs decoded =
    visit_segments-cut (matching_segment tables dk cs) (length decoded) decoded (omega arith)
    ∙ filter_map-matching_segment tables dk cs (cut decoded)
    ∙ ap (filter (has_callsign cs)) (sym (parse_snapshots-cut tables dk decoded).0)

filter_map-append :
    (f : Bytes → Option CallSnapshot) (xs ys : List Bytes)
    → filter_map f (xs ++ ys) ≡ filter_map f xs ++ filter_map f ys
filter_map-append f [] ys = refl
filter_map-append f (x ∷ xs) ys = elim (Option-cases (f x)) [
  | inl e ↦ rw e (filter_map-append f xs ys)
  | inr (s, e) ↦ rw e (ap (λ r. s ∷ r) (filter_map-append f xs ys))
]

-- In front of pieces that others follow, a byte changes the first one only.
attach_mark-front :
    (b r : ℕ) (rs rs' : Bytes) (pieces pieces' whole rest : List Bytes)
    → whole ≡ all_but_last ((r ∷ rs) ∷ pieces) ++ rest
    → whole ≡ (r ∷ rs') ∷ pieces'
    → (xs : List Bytes) × (attach_mark b whole
        ≡ all_but_last (attach_mark b ((r ∷ rs) ∷ pieces)) ++ xs)
attach_mark-front b r rs rs' [] pieces' whole rest e shape = elim (Bool-cases (is_mark r)) [
  | inl f ↦ (whole, rw (shape, f) refl)
  | inr f ↦ (attach_mark b whole, rw f refl)
]
attach_mark-front b r rs rs' (p ∷ ps) pieces' whole rest e shape = elim (Bool-cases (is_mark r)) [
  | inl f ↦
      let here : attach_mark b ((r ∷ rs) ∷ (all_but_last (p ∷ ps) ++ rest))
          ≡ (b ∷ []) ∷ (r ∷ rs) ∷ (all_but_last (p ∷ ps) ++ rest) =
        rw f refl in
      (rest, rw f (ap (attach_mark b) e ∙ here))
  | inr f ↦
      let here : attach_mark b ((r ∷ rs) ∷ (all_but_last (p ∷ ps) ++ rest))
          ≡ (b ∷ r ∷ rs) ∷ (all_but_last (p ∷ ps) ++ rest) =
        rw f refl in
      (rest, rw f (ap (attach_mark b) e ∙ here))
]

cut-append : (d more : Bytes) → (xs : List Bytes) × (cut (d ++ more) ≡ all_but_last (cut d) ++ xs)
unfolding cut
cut-append [] more = (cut more, refl)
cut-append (b ∷ []) more = (cut (b ∷ more), refl)
cut-append (b ∷ r ∷ rs) more =
    let (xs, e) = cut-append (r ∷ rs) more in
    let n = until_mark rs in
    let (ys, q) =
      attach_mark-front b r (take n rs) (take (until_mark (rs ++ more)) (rs ++ more))
        (cut (drop n rs)) (cut (drop (until_mark (rs ++ more)) (rs ++ more))) (cut (r ∷ rs ++ more))
        xs (e ∙ ap (λ c. all_but_last c ++ xs) (cut-cons r rs)) (cut-cons r (rs ++ more)) in
    (ys, q ∙ ap (λ c. all_but_last (attach_mark b c) ++ ys) (sym (cut-cons r rs)))

-- What `parse_complete_matching_snapshots` reads in a window of the decoded bytes is the beginning
-- of what `parse_matching_snapshots` reads in all of them: a window that ends within a record makes
-- up no snapshot and cuts none short.
pub parse_complete_matching_snapshots-append :
    (tables : Tables) (default_key : Option Bytes) (callsign window more : Bytes)
    → (rest : List CallSnapshot) × (parse_matching_snapshots tables default_key callsign
          (window ++ more)
        ≡ parse_complete_matching_snapshots tables default_key callsign window ++ rest)
unfolding parse_matching_snapshots parse_complete_matching_snapshots
parse_complete_matching_snapshots-append tables dk cs window more =
    let visit = matching_segment tables dk cs in
    let (xs, e) = cut-append window more in
    (
      filter_map visit xs,
      visit_segments-cut visit (length (window ++ more)) (window ++ more) (omega arith)
          ∙ ap (filter_map visit) e
          ∙ filter_map-append visit (all_but_last (cut window)) xs
          ∙ ap (λ r. r ++ filter_map visit xs)
              (sym (visit_complete-cut visit (length window) window (omega arith))),
    )
