-- ===== src/IdxText/Find/Laws.antt =====
-- On a table in key order the binary searches find what a scan of all entries finds.
use callbook_rs.Prelude.{
  All, Bool, Bool-cases, Bytes, List, Option, [], ap, ap₂, arith, drop, filter, get_elem?, inl, inr,
  length, ltb, ltb→le, map, map_option, none, not, refl, suc, then_some, zero, ℕ, ◌++◌, ◌>>=◌, ◌∙◌,
  ◌≡◌, ◌≤◌,
}
use callbook_rs.Prelude.Order.{lt_bytes}
use callbook_rs.Prelude.Trim.{Fails}
use callbook_rs.Prelude.Search.{partition_point, IsPartitioned, drop-partition_point}
use callbook_rs.IdxText.Line.{TextEntry, TextIndexEntry}
use callbook_rs.IdxText.Build.{TextIdxFile, entry_key, text_entry}
use callbook_rs.IdxText.Build.Opened.{text_entries}
use callbook_rs.IdxText.Find.{
  find_entry_index_ge, find_entry_index_gt, text_entry_at, matching, find_exact,
  next_entry_after_key, suffix_run, find_callsign_all, head?, to_list, ◌∷◌, run_at, some,
}
use callbook_rs.IdxText.Find.Sorted.{
  KeysSorted, below, not_above, KeysSorted-below, KeysSorted-not_above, from_key, has_key,
  has_prefix, from_key-head, prefix_run, from_key-prefix_run,
}

module _ {ℓ κ} {A : Type ℓ} {B : Type κ} (f : A → B) (p : B → Bool) where
  All-map : (xs : List A) → All (Fails p) (map f xs) → All (Fails (λ x. p (f x))) xs
  All-map [] h = tt
  All-map (x ∷ xs) h = (h.0, All-map xs h.1)

  IsPartitioned-map : (xs : List A) → IsPartitioned p (map f xs) → IsPartitioned (λ x. p (f x)) xs
  IsPartitioned-map [] h = tt
  IsPartitioned-map (x ∷ xs) h = (λ e. All-map xs (h.0 e), IsPartitioned-map xs h.1)

  map-filter : (xs : List A) → map f (filter (λ x. p (f x)) xs) ≡ filter p (map f xs)
  map-filter [] = refl
  map-filter (x ∷ xs) = elim (Bool-cases (p (f x))) [
    | inl e ↦ rw e (ap (λ r. f x ∷ r) (map-filter xs))
    | inr e ↦ rw e (map-filter xs)
  ]

get_elem?-drop {ℓ} : {A : Type ℓ} (i : ℕ) (xs : List A) → get_elem? xs i ≡ head? (drop i xs)
get_elem?-drop zero [] = refl
get_elem?-drop zero (x ∷ xs) = refl
get_elem?-drop (suc i) [] = refl
get_elem?-drop (suc i) (x ∷ xs) = get_elem?-drop i xs

drop_past {ℓ} : {A : Type ℓ} (i : ℕ) (xs : List A) → length xs ≤ i → drop i xs ≡ []
drop_past zero [] h = refl
drop_past (suc i) [] h = refl
drop_past zero (x ∷ xs) h = absurd (omega arith)
drop_past (suc i) (x ∷ xs) h = drop_past i xs (omega arith)

map_option-head? {ℓ κ} :
    {A : Type ℓ} {B : Type κ} (f : A → B) (xs : List A) → map_option f (head? xs) ≡ head? (map f xs)
map_option-head? f [] = refl
map_option-head? f (x ∷ xs) = refl

suffix_run-prefix_run :
    (mmap p : Bytes) (es : List TextIndexEntry)
    → suffix_run mmap p es ≡ prefix_run p (map (text_entry mmap) es)
unfolding suffix_run text_entry
suffix_run-prefix_run mmap p [] = refl
suffix_run-prefix_run mmap p (e ∷ es) = rw (suffix_run-prefix_run mmap p es)

module _ (idx : TextIdxFile) (sorted : KeysSorted (text_entries idx)) where
  abbrev rest_from : Bytes → List TextIndexEntry
  rest_from target =
      drop (partition_point (λ e. lt_bytes (entry_key idx.mmap e) target) idx.entries) idx.entries

  abbrev rest_after : Bytes → List TextIndexEntry
  rest_after target =
      drop (partition_point (λ e. not (lt_bytes target (entry_key idx.mmap e))) idx.entries)
        idx.entries

  rest_from-from_key :
      (target : Bytes)
      → map (text_entry idx.mmap) (rest_from target) ≡ from_key target (text_entries idx)
  unfolding text_entry
  rest_from-from_key target =
      let te = text_entry idx.mmap in
      ap (map te) (
        drop-partition_point (λ e. below target (te e)) idx.entries
          (IsPartitioned-map te (below target) idx.entries (KeysSorted-below target _ sorted)))
      ∙ map-filter te (λ t. not (below target t)) idx.entries

  rest_after-filter :
      (target : Bytes)
      → map (text_entry idx.mmap) (rest_after target)
        ≡ filter (λ t. not (not_above target t)) (text_entries idx)
  unfolding text_entry
  rest_after-filter target =
      let te = text_entry idx.mmap in
      ap (map te) (
        drop-partition_point (λ e. not_above target (te e)) idx.entries
          (IsPartitioned-map te (not_above target) idx.entries
            (KeysSorted-not_above target _ sorted)))
      ∙ map-filter te (λ t. not (not_above target t)) idx.entries

  -- The entry at an index that passed the bound check, if it did.
  index_head :
      (i : ℕ)
      → (then_some (ltb i (length idx.entries)) i >>= λ j. text_entry_at idx j)
        ≡ head? (map (text_entry idx.mmap) (drop i idx.entries))
  unfolding text_entry_at
  index_head i = elim (Bool-cases (ltb i (length idx.entries))) [
    | inl e ↦
        rw (e, get_elem?-drop i idx.entries)
          (map_option-head? (text_entry idx.mmap) (drop i idx.entries))
    | inr e ↦ rw (e, drop_past i idx.entries (ltb→le i (length idx.entries) e)) refl
  ]

  bind_bind :
      (m : Option ℕ) (f : ℕ → Option TextEntry) (g : TextEntry → Option TextEntry)
      → (m >>= λ i. f i >>= g) ≡ ((m >>= f) >>= g)
  bind_bind none f g = refl
  bind_bind (some i) f g = refl

  -- `find_exact` returns the first entry with exactly that key, and nothing if there is none, on
  -- every index whose keys are in order.
  pub find_exact-filter :
      (key : Bytes) → find_exact idx key ≡ head? (filter (has_key key) (text_entries idx))
  unfolding find_exact
  find_exact-filter key =
      bind_bind (find_entry_index_ge idx key) (λ i. text_entry_at idx i) (matching key)
      ∙ ap (λ o. o >>= matching key)
          (unfold find_entry_index_ge in index_head _ ∙ ap head? (rest_from-from_key key))
      ∙ from_key-head key (text_entries idx) sorted

  -- `next_entry_after_key` returns the first entry whose key is above the given one, and nothing
  -- if there is none, on every index whose keys are in order.
  pub next_entry_after_key-filter :
      (key : Bytes)
      → next_entry_after_key idx key
        ≡ head? (filter (λ t. not (not_above key t)) (text_entries idx))
  unfolding next_entry_after_key find_entry_index_gt
  next_entry_after_key-filter key = index_head _ ∙ ap head? (rest_after-filter key)

  run_prefix_run :
      (p : Bytes) (i : ℕ)
      → run_at idx p (then_some (ltb i (length idx.entries)) i)
        ≡ prefix_run p (map (text_entry idx.mmap) (drop i idx.entries))
  run_prefix_run p i = elim (Bool-cases (ltb i (length idx.entries))) [
    | inl e ↦ rw e (suffix_run-prefix_run idx.mmap p (drop i idx.entries))
    | inr e ↦ rw (e, drop_past i idx.entries (ltb→le i (length idx.entries) e)) refl
  ]

  -- `find_callsign_all` returns the first entry whose key is the bare callsign, if there is one,
  -- followed by all entries whose key starts with the callsign and a colon, in file order, and
  -- nothing else, on every index whose keys are in order.
  pub find_callsign_all-filter :
      (callsign : Bytes)
      → find_callsign_all idx callsign
        ≡ to_list (head? (filter (has_key callsign) (text_entries idx)))
          ++ filter (has_prefix (callsign ++ (b':' ∷ []))) (text_entries idx)
  unfolding find_callsign_all
  find_callsign_all-filter callsign =
      let p = callsign ++ (b':' ∷ []) in
      ap₂ (λ a b. to_list a ++ b) (find_exact-filter callsign)
        ((unfold find_entry_index_ge in run_prefix_run p _)
          ∙ ap (prefix_run p) (rest_from-from_key p)
          ∙ from_key-prefix_run p (text_entries idx) sorted)
