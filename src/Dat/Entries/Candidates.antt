-- ===== src/Dat/Entries/Candidates.antt =====
-- The callsigns that the iteration over the entries has still to come to.
use callbook_rs.Prelude.{
  Bool, Bytes, List, Option, Option-cases, [], filter_map, none, refl, some, ◌++◌, ◌∷◌, ◌≡◌, inl,
  inr,
}
use callbook_rs.IdxText.Line.{TextEntry}
use callbook_rs.Dat.Entries.{
  EntryIterPhase, modern_phase, us_csv_phase, done_phase, EntryIter, index_callsign, next_indexed,
  next_current, after_indexed, next_in, next_callsign,
}

abbrev pub or_nil {ℓ} : {A : Type ℓ} → Option (List A) → List A
or_nil none = []
or_nil (some xs) = xs

module _ (is_utf8 : Bytes → Bool) (include_history : Bool) where
  -- The callsigns that are still to come.
  abbrev pub indexed : List TextEntry → List Bytes
  indexed index = filter_map (index_callsign is_utf8 include_history) index

  abbrev candidates_in : EntryIterPhase → Option (List TextEntry) → Option (List Bytes) → List Bytes
  candidates_in modern_phase modern us = indexed (or_nil modern) ++ or_nil us
  candidates_in us_csv_phase modern us = or_nil us
  candidates_in done_phase modern us = []

  abbrev pub candidates : EntryIter → List Bytes
  candidates entries = candidates_in entries.phase entries.modern_idx entries.us_csv_callsigns

  -- What a step yields is the first of the candidates, and it leaves the others and what is seen.
  abbrev pub IsFirst : List Bytes → List Bytes → Option Bytes × EntryIter → Type 0
  IsFirst cs seen (none, entries) = cs ≡ []
  IsFirst cs seen (some c, entries) = (cs ≡ c ∷ candidates entries) × (entries.seen ≡ seen)

  next_current-IsFirst :
      (o : Option (List Bytes)) (entries : EntryIter)
      → IsFirst
          (or_nil o)
          entries.seen
          (next_current is_utf8 include_history o (record entries { phase = us_csv_phase }))
  next_current-IsFirst none entries = refl
  next_current-IsFirst (some []) entries = refl
  next_current-IsFirst (some (c ∷ cs)) entries = (refl, refl)

  next_indexed-indexed :
      (index : List TextEntry)
      → indexed index ≡ elim (next_indexed is_utf8 include_history index) [
        | none ↦ []
        | some found ↦ found.0 ∷ indexed found.1
      ]
  unfolding next_indexed
  next_indexed-indexed [] = refl
  next_indexed-indexed (entry ∷ index) =
      elim (Option-cases (index_callsign is_utf8 include_history entry)) [
        | inl e ↦ rw (next_indexed, e) (next_indexed-indexed index)
        | inr (c, e) ↦ rw (next_indexed, e) refl
      ]

  after_indexed-IsFirst :
      (index : List TextEntry) (seen : List Bytes) (us : Option (List Bytes))
      → IsFirst (indexed index ++ or_nil us) seen (
          after_indexed is_utf8 include_history
            (next_indexed is_utf8 include_history index)
            (record {
              phase = modern_phase;
              seen = seen;
              modern_idx = some index;
              us_csv_callsigns = us;
            }))
  after_indexed-IsFirst index seen us =
      let of_index = next_indexed-indexed index in
      elim (Option-cases (next_indexed is_utf8 include_history index)) [
        | inl e ↦
            let none_left : indexed index ≡ [] = rw e at of_index in
            rw (e, none_left)
              (next_current-IsFirst us (record {
                phase = modern_phase;
                seen = seen;
                modern_idx = some [];
                us_csv_callsigns = us;
              }))
        | inr ((c, rest), e) ↦
            let one : indexed index ≡ c ∷ indexed rest = rw e at of_index in
            rw (e, one) (refl, refl)
      ]

  next_in-IsFirst :
      (phase : EntryIterPhase) (seen : List Bytes) (modern : Option (List TextEntry))
      (us : Option (List Bytes))
      → (let entries : EntryIter = record {
        phase = phase;
        seen = seen;
        modern_idx = modern;
        us_csv_callsigns = us;
      } in
          IsFirst (candidates entries) seen (next_in is_utf8 include_history phase entries))
  next_in-IsFirst done_phase seen modern us = refl
  next_in-IsFirst us_csv_phase seen modern us =
      next_current-IsFirst us
        (record { phase = us_csv_phase; seen = seen; modern_idx = modern; us_csv_callsigns = us })
  next_in-IsFirst modern_phase seen none us =
      next_current-IsFirst us
        (record { phase = modern_phase; seen = seen; modern_idx = none; us_csv_callsigns = us })
  next_in-IsFirst modern_phase seen (some index) us = after_indexed-IsFirst index seen us

  pub next_callsign-IsFirst :
      (entries : EntryIter)
      → IsFirst (candidates entries) entries.seen (next_callsign is_utf8 include_history entries)
  unfolding next_callsign
  next_callsign-IsFirst entries =
      next_in-IsFirst entries.phase entries.seen entries.modern_idx entries.us_csv_callsigns
