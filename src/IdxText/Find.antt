-- ===== src/IdxText/Find.antt =====
-- The searches of `TextIdxFile`, by binary search of the table.
pub mod Sorted
pub mod Laws
use callbook_rs.Prelude.{
  ◌>>=◌, Bytes, List, Option, [], bytes_eq, drop, get_elem?, if◌then◌else◌, length, ltb, map_option,
  none, not, refl, some, starts_with, suc, then_some, zero, ℕ, ◌++◌, ◌∷◌, ◌≡◌,
}
use callbook_rs.Prelude.Order.{lt_bytes}
use callbook_rs.Prelude.Search.{partition_point}
use callbook_rs.IdxText.Line.{TextEntry, TextIndexEntry}
use callbook_rs.IdxText.Build.{TextIdxFile, entry_key, text_entry}

-- `(index < self.entries.len()).then_some(index)`.
abbrev within : TextIdxFile → ℕ → Option ℕ
within idx index = then_some (ltb index (length idx.entries)) index

unfoldable pub find_entry_index_ge : TextIdxFile → Bytes → Option ℕ
find_entry_index_ge idx target =
    within idx (partition_point (λ e. lt_bytes (entry_key idx.mmap e) target) idx.entries)

unfoldable pub find_entry_index_gt : TextIdxFile → Bytes → Option ℕ
find_entry_index_gt idx target =
    within idx (partition_point (λ e. not (lt_bytes target (entry_key idx.mmap e))) idx.entries)

unfoldable pub text_entry_at : TextIdxFile → ℕ → Option TextEntry
text_entry_at idx index = map_option (text_entry idx.mmap) (get_elem? idx.entries index)

-- `(entry.key == key).then_some(entry)`.
abbrev pub matching : Bytes → TextEntry → Option TextEntry
matching key entry = then_some (bytes_eq entry.key key) entry

unfoldable pub find_exact : TextIdxFile → Bytes → Option TextEntry
unfolding find_entry_index_ge text_entry_at
find_exact idx key = do
  index ← find_entry_index_ge idx key
  entry ← text_entry_at idx index
  matching key entry

unfoldable pub next_entry_after_key : TextIdxFile → Bytes → Option TextEntry
unfolding find_entry_index_gt text_entry_at
next_entry_after_key idx key = do index ← find_entry_index_gt idx key; text_entry_at idx index

-- The `while` loop of the second pass, over the entries from the index on.
unfoldable pub suffix_run : Bytes → Bytes → List TextIndexEntry → List TextEntry
suffix_run mmap prefix [] = []
suffix_run mmap prefix (e ∷ es) =
    let rest = suffix_run mmap prefix es in
    if starts_with (entry_key mmap e) prefix then text_entry mmap e ∷ rest else []

abbrev pub run_at : TextIdxFile → Bytes → Option ℕ → List TextEntry
run_at idx prefix none = []
run_at idx prefix (some index) = suffix_run idx.mmap prefix (drop index idx.entries)

abbrev pub to_list {ℓ} : {A : Type ℓ} → Option A → List A
to_list none = []
to_list (some a) = a ∷ []

-- Pass 1 looks for the bare callsign, pass 2 for the run of keys `<callsign>:<year>`.
unfoldable pub find_callsign_all : TextIdxFile → Bytes → List TextEntry
unfolding find_exact find_entry_index_ge suffix_run
find_callsign_all idx callsign =
    let suffix_prefix = callsign ++ (b':' ∷ []) in
    to_list (find_exact idx callsign)
    ++ run_at idx suffix_prefix (find_entry_index_ge idx suffix_prefix)

abbrev pub head? {ℓ} : {A : Type ℓ} → List A → Option A
head? [] = none
head? (x ∷ xs) = some x

unfoldable pub find_callsign : TextIdxFile → Bytes → Option TextEntry
unfolding find_callsign_all
find_callsign idx callsign = head? (find_callsign_all idx callsign)
