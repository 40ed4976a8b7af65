-- ===== src/Report/History.antt =====
-- The history of a report: one entry for each key that the sources yield with a vintage, in order.
use callbook_rs.Prelude.{
  All, Bool, Bool-cases, List, [], ap, false, inl, inr, is_some, none, refl, some, true, ℕ, ◌∙◌,
  ◌∷◌, ◌≡◌,
}
use callbook_rs.Modern.Snapshot.{CallSnapshot}
use callbook_rs.Modern.Merge.{merge_missing_from}
use callbook_rs.Report.{
  same_key, merge_history, precedes, insert_history, sort_history, merge_by_vintage, Found,
  merge_snapshot,
}
use callbook_rs.Report.Key.{same_key_comm}

abbrev pub dated : CallSnapshot → Bool
dated s = is_some s.vintage

abbrev pub HistoryOk : List CallSnapshot → Type 0
HistoryOk [] = Unit
HistoryOk (s ∷ history) =
    (dated s ≡ true) × All (λ t. same_key s t ≡ false) history × HistoryOk history

-- Merging keeps the key of an entry.
pub same_key-merge : (a b s : CallSnapshot) → same_key (merge_missing_from a b) s ≡ same_key a s
unfolding same_key merge_missing_from
same_key-merge a b s = refl

apart-merge_history :
    (x : CallSnapshot) (history : List CallSnapshot) (s : CallSnapshot)
    → same_key x s ≡ false
    → All (λ t. same_key x t ≡ false) history
    → All (λ t. same_key x t ≡ false) (merge_history history s)
unfolding merge_history
apart-merge_history x [] s h a = (h, tt)
apart-merge_history x (t ∷ history) s h a = elim (Bool-cases (same_key t s)) [
  | inl e ↦ rw e (
    (same_key_comm x (merge_missing_from t s) ∙ same_key-merge t s x ∙ same_key_comm t x ∙ a.0),
    a.1,
  )
  | inr e ↦ rw e (a.0, apart-merge_history x history s h a.1)
]

apart_keeps :
    (a b : CallSnapshot) (history : List CallSnapshot)
    → All (λ t. same_key a t ≡ false) history
    → All (λ t. same_key (merge_missing_from a b) t ≡ false) history
apart_keeps a b [] h = tt
apart_keeps a b (t ∷ history) h = (same_key-merge a b t ∙ h.0, apart_keeps a b history h.1)

dated-merge : (a b : CallSnapshot) → dated a ≡ true → dated (merge_missing_from a b) ≡ true
unfolding merge_missing_from
dated-merge a b h = h

pub merge_history-HistoryOk :
    (history : List CallSnapshot) (s : CallSnapshot)
    → dated s ≡ true
    → HistoryOk history
    → HistoryOk (merge_history history s)
unfolding merge_history
merge_history-HistoryOk [] s d ok = (d, tt, tt)
merge_history-HistoryOk (t ∷ history) s d (dt, apart, ok) = elim (Bool-cases (same_key t s)) [
  | inl e ↦ rw e (dated-merge t s dt, apart_keeps t s history apart, ok)
  | inr e ↦
      rw e (dt, apart-merge_history t history s e apart, merge_history-HistoryOk history s d ok)
]

apart-insert_history :
    (x : CallSnapshot) (s : CallSnapshot) (history : List CallSnapshot)
    → same_key x s ≡ false
    → All (λ t. same_key x t ≡ false) history
    → All (λ t. same_key x t ≡ false) (insert_history s history)
unfolding insert_history
apart-insert_history x s [] h a = (h, tt)
apart-insert_history x s (t ∷ history) h a = elim (Bool-cases (precedes t s)) [
  | inl e ↦ rw e (a.0, apart-insert_history x s history h a.1)
  | inr e ↦ rw e (h, a)
]

insert_history-HistoryOk :
    (s : CallSnapshot) (history : List CallSnapshot)
    → dated s ≡ true
    → All (λ t. same_key s t ≡ false) history
    → HistoryOk history
    → HistoryOk (insert_history s history)
unfolding insert_history
insert_history-HistoryOk s [] d a ok = (d, tt, tt)
insert_history-HistoryOk s (t ∷ history) d a ok = elim (Bool-cases (precedes t s)) [
  | inl e ↦ rw e (
    ok.0,
    apart-insert_history t s history (same_key_comm t s ∙ a.0) ok.1,
    insert_history-HistoryOk s history d a.1 ok.2,
  )
  | inr e ↦ rw e (d, a, ok)
]

apart-sort_history :
    (x : CallSnapshot) (history : List CallSnapshot)
    → All (λ t. same_key x t ≡ false) history
    → All (λ t. same_key x t ≡ false) (sort_history history)
unfolding sort_history
apart-sort_history x [] a = tt
apart-sort_history x (t ∷ history) a =
    apart-insert_history x t (sort_history history) a.0 (apart-sort_history x history a.1)

pub sort_history-HistoryOk :
    (history : List CallSnapshot) → HistoryOk history → HistoryOk (sort_history history)
unfolding sort_history
sort_history-HistoryOk [] ok = tt
sort_history-HistoryOk (s ∷ history) (d, a, ok) =
    insert_history-HistoryOk s (sort_history history) d (apart-sort_history s history a)
      (sort_history-HistoryOk history ok)

pub merge_snapshot-undated :
    (found : Found) (s : CallSnapshot)
    → s.vintage ≡ none
    → merge_snapshot found s ≡ merge_by_vintage none found s
unfolding merge_snapshot
merge_snapshot-undated found s e = ap (λ v. merge_by_vintage v found s) e

pub merge_snapshot-dated :
    (found : Found) (s : CallSnapshot) (year : ℕ)
    → s.vintage ≡ some year
    → merge_snapshot found s ≡ merge_by_vintage (some year) found s
unfolding merge_snapshot
merge_snapshot-dated found s year e = ap (λ v. merge_by_vintage v found s) e

pub dated-none : (s : CallSnapshot) → s.vintage ≡ none → dated s ≡ false
dated-none s e = ap is_some e

pub dated-some : (s : CallSnapshot) (year : ℕ) → s.vintage ≡ some year → dated s ≡ true
dated-some s year e = ap is_some e
