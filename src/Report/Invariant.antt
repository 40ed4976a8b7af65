-- ===== src/Report/Invariant.antt =====
-- The report as a whole: its history, its current record and its status.
use callbook_rs.Prelude.Order.{lt_bytes}
use callbook_rs.Prelude.{
  All, Bool, Bool-cases, Bytes, List, Option, Option-cases, [], ap, arith, false, inl, inr, ltb,
  none, refl, some, subst, sym, ℕ, ◌&&◌, ◌<◌, ◌==◌, ◌||◌, ◌∷◌, ◌≡◌, ◌⊎◌,
}
use callbook_rs.Modern.Snapshot.{CallSnapshot}
use callbook_rs.Modern.Merge.{merge_missing_from}
use callbook_rs.Report.{
  Found, merge_snapshot, merge_snapshots, precedes, insert_history, sort_history, lookup_report,
  merge_current, vintage_rank,
}
use callbook_rs.Report.Key.{precedes_asym, precedes_le_trans}
use callbook_rs.Report.History.{
  HistoryOk, merge_history-HistoryOk, sort_history-HistoryOk, merge_snapshot-undated,
  merge_snapshot-dated, dated-some,
}

-- No entry ranks before one that stands in front of it.
abbrev Sorted : List CallSnapshot → Type 0
Sorted [] = Unit
Sorted (s ∷ history) = All (λ t. precedes t s ≡ false) history × Sorted history

lower-insert_history :
    (x s : CallSnapshot) (history : List CallSnapshot)
    → precedes s x ≡ false
    → All (λ t. precedes t x ≡ false) history
    → All (λ t. precedes t x ≡ false) (insert_history s history)
unfolding insert_history
lower-insert_history x s [] h a = (h, tt)
lower-insert_history x s (t ∷ history) h a = elim (Bool-cases (precedes t s)) [
  | inl e ↦ rw e (a.0, lower-insert_history x s history h a.1)
  | inr e ↦ rw e (h, a)
]

lower_trans :
    (x y : CallSnapshot) (history : List CallSnapshot)
    → precedes y x ≡ false
    → All (λ t. precedes t y ≡ false) history
    → All (λ t. precedes t x ≡ false) history
lower_trans x y [] h a = tt
lower_trans x y (t ∷ history) h a = (precedes_le_trans x y t h a.0, lower_trans x y history h a.1)

insert_history-Sorted :
    (s : CallSnapshot) (history : List CallSnapshot)
    → Sorted history
    → Sorted (insert_history s history)
unfolding insert_history
insert_history-Sorted s [] a = (tt, tt)
insert_history-Sorted s (t ∷ history) a = elim (Bool-cases (precedes t s)) [
  | inl e ↦ rw e (
    lower-insert_history t s history (precedes_asym t s e) a.0,
    insert_history-Sorted s history a.1,
  )
  | inr e ↦ rw e ((e, lower_trans s t history e a.0), a)
]

sort_history-Sorted : (history : List CallSnapshot) → Sorted (sort_history history)
unfolding sort_history
sort_history-Sorted [] = tt
sort_history-Sorted (s ∷ history) =
    insert_history-Sorted s (sort_history history) (sort_history-Sorted history)

-- `s` may stand in front of `t`: its vintage is the lower one, or it is the same and the callsign of
-- `t` is not the lower one.
abbrev pub NotAfter : CallSnapshot → CallSnapshot → Type 0
NotAfter s t =
    (vintage_rank s.vintage < vintage_rank t.vintage)
    ⊎ (s.vintage ≡ t.vintage) × (lt_bytes t.callsign s.callsign ≡ false)

-- Vintages never go down, nor callsigns within a vintage.
abbrev pub HistorySorted : List CallSnapshot → Type 0
HistorySorted [] = Unit
HistorySorted (s ∷ history) = All (NotAfter s) history × HistorySorted history

vintage_rank-injective : (v w : Option ℕ) → vintage_rank v ≡ vintage_rank w → v ≡ w
vintage_rank-injective none none h = refl
vintage_rank-injective none (some w) h = absurd (omega (arith, h))
vintage_rank-injective (some v) none h = absurd (omega (arith, h))
vintage_rank-injective (some v) (some w) h = ap some (omega (arith, h))

order_parts :
    (u v : ℕ) (c : Bool) → (ltb v u || (v == u && c)) ≡ false → (u < v) ⊎ (u ≡ v) × (c ≡ false)
order_parts u v c h = ground arith

NotAfter-precedes : (s t : CallSnapshot) → precedes t s ≡ false → NotAfter s t
unfolding precedes
NotAfter-precedes s t h =
    elim (order_parts (vintage_rank s.vintage) (vintage_rank t.vintage)
      (lt_bytes t.callsign s.callsign) h) [
        | inl lt ↦ inl lt
        | inr (same, last) ↦ inr (vintage_rank-injective s.vintage t.vintage same, last)
      ]

All-NotAfter :
    (s : CallSnapshot) (history : List CallSnapshot)
    → All (λ t. precedes t s ≡ false) history
    → All (NotAfter s) history
All-NotAfter s [] h = tt
All-NotAfter s (t ∷ history) (h, hs) = (NotAfter-precedes s t h, All-NotAfter s history hs)

Sorted-HistorySorted : (history : List CallSnapshot) → Sorted history → HistorySorted history
Sorted-HistorySorted [] h = tt
Sorted-HistorySorted (s ∷ history) (h, hs) =
    (All-NotAfter s history h, Sorted-HistorySorted history hs)

abbrev pub Undated : Option CallSnapshot → Type 0
Undated none = Unit
Undated (some s) = s.vintage ≡ none

abbrev FoundOk : Found → Type 0
FoundOk found = Undated found.current × HistoryOk found.history

merge_current-Undated :
    (current : Option CallSnapshot) (s : CallSnapshot)
    → s.vintage ≡ none
    → Undated current
    → Undated (merge_current current s)
unfolding merge_missing_from
merge_current-Undated none s h u = h
merge_current-Undated (some c) s h u = u

merge_snapshot-FoundOk :
    (found : Found) (s : CallSnapshot) → FoundOk found → FoundOk (merge_snapshot found s)
merge_snapshot-FoundOk found s (u, ok) = elim (Option-cases s.vintage) [
  | inl e ↦
      subst FoundOk (sym (merge_snapshot-undated found s e))
        (merge_current-Undated found.current s e u, ok)
  | inr (year, e) ↦
      subst FoundOk (sym (merge_snapshot-dated found s year e))
        (u, merge_history-HistoryOk found.history s (dated-some s year e) ok)
]

merge_snapshots-FoundOk :
    (found : Found) (ss : List CallSnapshot) → FoundOk found → FoundOk (merge_snapshots found ss)
unfolding merge_snapshots
merge_snapshots-FoundOk found [] ok = ok
merge_snapshots-FoundOk found (s ∷ ss) ok =
    merge_snapshots-FoundOk (merge_snapshot found s) ss (merge_snapshot-FoundOk found s ok)

-- If the catalogue's snapshot has no vintage then neither has the current record of the report, and
-- in its history every entry has a vintage, no two have the same callsign and vintage, and they
-- stand by vintage and then callsign.
pub lookup_report-HistoryOk :
    (query : Bytes) (us : Option CallSnapshot) (dat hci : List CallSnapshot)
    → Undated us
    → Undated (lookup_report query us dat hci).current
      × HistoryOk (lookup_report query us dat hci).history
      × HistorySorted (lookup_report query us dat hci).history
unfolding lookup_report
lookup_report-HistoryOk query us dat hci u =
    let start : Found = record { current = us; history = [] } in
    let (free, ok) =
      merge_snapshots-FoundOk (merge_snapshots start dat) hci
        (merge_snapshots-FoundOk start dat (u, tt)) in
    let history = (merge_snapshots (merge_snapshots start dat) hci).history in
    (
      free,
      sort_history-HistoryOk history ok,
      Sorted-HistorySorted (sort_history history) (sort_history-Sorted history),
    )
