-- ===== src/Report/Complete.antt =====
-- What the report holds, against what the sources yielded.
use callbook_rs.Prelude.{
  Bool, Bool-cases, Bytes, List, Option, Option-cases, [], any, ap, arith, false, if◌then◌else◌,
  inl, inr, is_empty, is_some, none, not, refl, some, true, ◌&&◌, ◌||◌, ◌∙◌, ◌∷◌, ◌≡◌,
}
use callbook_rs.Modern.Snapshot.{CallSnapshot, LookupStatus}
use callbook_rs.Report.{
  Found, same_key, merge_history, merge_snapshot, merge_snapshots, precedes, insert_history,
  sort_history, lookup_report, status_of, merge_current,
}
use callbook_rs.Report.Key.{same_key_congr}
use callbook_rs.Report.History.{
  dated, same_key-merge, merge_snapshot-undated, merge_snapshot-dated, dated-none, dated-some,
}

-- Some snapshot with a vintage has the key of `s`.
abbrev pub records : List CallSnapshot → CallSnapshot → Bool
records ss s = any (λ t. dated t && same_key t s) ss

abbrev pub has_key_of : List CallSnapshot → CallSnapshot → Bool
has_key_of history s = any (λ t. same_key t s) history

has_key_of-merge_history :
    (history : List CallSnapshot) (x s : CallSnapshot)
    → has_key_of (merge_history history x) s ≡ has_key_of history s || same_key x s
unfolding merge_history
has_key_of-merge_history [] x s = ground arith
has_key_of-merge_history (t ∷ history) x s = elim (Bool-cases (same_key t x)) [
  | inl e ↦
      let kept = same_key-merge t x s in
      let same = same_key_congr t x s e in rw (e, kept, same) (ground arith)
  | inr e ↦ rw (e, has_key_of-merge_history history x s) (ground arith)
]

has_key_of-insert_history :
    (x : CallSnapshot) (history : List CallSnapshot) (s : CallSnapshot)
    → has_key_of (insert_history x history) s ≡ same_key x s || has_key_of history s
unfolding insert_history
has_key_of-insert_history x [] s = refl
has_key_of-insert_history x (t ∷ history) s = elim (Bool-cases (precedes t x)) [
  | inl e ↦ rw (e, has_key_of-insert_history x history s) (ground arith)
  | inr e ↦ rw e refl
]

has_key_of-sort_history :
    (history : List CallSnapshot) (s : CallSnapshot)
    → has_key_of (sort_history history) s ≡ has_key_of history s
unfolding sort_history
has_key_of-sort_history [] s = refl
has_key_of-sort_history (t ∷ history) s =
    has_key_of-insert_history t (sort_history history) s
    ∙ ap (λ b. same_key t s || b) (has_key_of-sort_history history s)

has_key_of-merge_snapshot :
    (found : Found) (x s : CallSnapshot)
    → has_key_of (merge_snapshot found x).history s
      ≡ has_key_of found.history s || (dated x && same_key x s)
has_key_of-merge_snapshot found x s = elim (Option-cases x.vintage) [
  | inl e ↦ rw (merge_snapshot-undated found x e, dated-none x e) (ground arith)
  | inr (year, e) ↦
      rw (merge_snapshot-dated found x year e, dated-some x year e)
        (has_key_of-merge_history found.history x s)
]

has_key_of-merge_snapshots :
    (found : Found) (ss : List CallSnapshot) (s : CallSnapshot)
    → has_key_of (merge_snapshots found ss).history s ≡ has_key_of found.history s || records ss s
unfolding merge_snapshots
has_key_of-merge_snapshots found [] s = ground arith
has_key_of-merge_snapshots found (x ∷ ss) s =
    has_key_of-merge_snapshots (merge_snapshot found x) ss s
    ∙ ap (λ b. b || records ss s) (has_key_of-merge_snapshot found x s)
    ∙ ground arith

-- The history has an entry with a given callsign and vintage exactly when one of the data files
-- yielded a snapshot with a vintage and that key.
pub has_key_of-lookup_report :
    (query : Bytes) (us : Option CallSnapshot) (dat hci : List CallSnapshot) (s : CallSnapshot)
    → has_key_of (lookup_report query us dat hci).history s ≡ records dat s || records hci s
unfolding lookup_report
has_key_of-lookup_report query us dat hci s =
    let start : Found = record { current = us; history = [] } in
    has_key_of-sort_history (merge_snapshots (merge_snapshots start dat) hci).history s
    ∙ has_key_of-merge_snapshots (merge_snapshots start dat) hci s
    ∙ ap (λ b. b || records hci s) (has_key_of-merge_snapshots start dat s)

is_some-merge_current :
    (current : Option CallSnapshot) (x : CallSnapshot)
    → is_some (merge_current current x) ≡ is_some current || true
is_some-merge_current none x = refl
is_some-merge_current (some c) x = refl

is_some-merge_snapshot :
    (found : Found) (x : CallSnapshot)
    → is_some (merge_snapshot found x).current ≡ is_some found.current || not (dated x)
is_some-merge_snapshot found x = elim (Option-cases x.vintage) [
  | inl e ↦
      rw (merge_snapshot-undated found x e, dated-none x e) (is_some-merge_current found.current x)
  | inr (year, e) ↦ rw (merge_snapshot-dated found x year e, dated-some x year e) (ground arith)
]

abbrev pub any_undated : List CallSnapshot → Bool
any_undated ss = any (λ s. not (dated s)) ss

is_some-merge_snapshots :
    (found : Found) (ss : List CallSnapshot)
    → is_some (merge_snapshots found ss).current ≡ is_some found.current || any_undated ss
unfolding merge_snapshots
is_some-merge_snapshots found [] = ground arith
is_some-merge_snapshots found (x ∷ ss) =
    is_some-merge_snapshots (merge_snapshot found x) ss
    ∙ ap (λ b. b || any_undated ss) (is_some-merge_snapshot found x)
    ∙ ground arith

is_empty-merge_history :
    (history : List CallSnapshot) (x : CallSnapshot) → is_empty (merge_history history x) ≡ false
unfolding merge_history
is_empty-merge_history [] x = refl
is_empty-merge_history (t ∷ history) x = elim (Bool-cases (same_key t x)) [
  | inl e ↦ rw e refl
  | inr e ↦ rw e refl
]

is_empty-insert_history :
    (x : CallSnapshot) (history : List CallSnapshot) → is_empty (insert_history x history) ≡ false
unfolding insert_history
is_empty-insert_history x [] = refl
is_empty-insert_history x (t ∷ history) = elim (Bool-cases (precedes t x)) [
  | inl e ↦ rw e refl
  | inr e ↦ rw e refl
]

is_empty-sort_history :
    (history : List CallSnapshot) → is_empty (sort_history history) ≡ is_empty history
unfolding sort_history
is_empty-sort_history [] = refl
is_empty-sort_history (t ∷ history) = is_empty-insert_history t (sort_history history)

is_empty-merge_snapshot :
    (found : Found) (x : CallSnapshot)
    → is_empty (merge_snapshot found x).history ≡ is_empty found.history && not (dated x)
is_empty-merge_snapshot found x = elim (Option-cases x.vintage) [
  | inl e ↦ rw (merge_snapshot-undated found x e, dated-none x e) (ground arith)
  | inr (year, e) ↦
      rw
        (
          merge_snapshot-dated found x year e,
          dated-some x year e,
          is_empty-merge_history found.history x,
        )
        (ground arith)
]

abbrev pub any_dated : List CallSnapshot → Bool
any_dated ss = any dated ss

is_empty-merge_snapshots :
    (found : Found) (ss : List CallSnapshot)
    → is_empty (merge_snapshots found ss).history ≡ is_empty found.history && not (any_dated ss)
unfolding merge_snapshots
is_empty-merge_snapshots found [] = ground arith
is_empty-merge_snapshots found (x ∷ ss) =
    is_empty-merge_snapshots (merge_snapshot found x) ss
    ∙ ap (λ b. b && not (any_dated ss)) (is_empty-merge_snapshot found x)
    ∙ ground arith

-- The status that the sources call for.
abbrev pub status_from : Option CallSnapshot → List CallSnapshot → List CallSnapshot → LookupStatus
status_from us dat hci =
    if is_some us || any_undated dat || any_undated hci
    then LookupStatus.current
    else if any_dated dat || any_dated hci
    then LookupStatus.archive_only
    else LookupStatus.not_found

status_of_tests :
    (o : Option CallSnapshot) (history : List CallSnapshot) (a b : Bool)
    → is_some o ≡ a
    → is_empty history ≡ not b
    → status_of o history ≡ (
        if a
        then LookupStatus.current
        else if b
        then LookupStatus.archive_only
        else LookupStatus.not_found)
status_of_tests o history true b e f = rw e refl
status_of_tests o history false true e f = rw (e, f) refl
status_of_tests o history false false e f = rw (e, f) refl

-- The status is `Current` if the catalogue or a data file yielded a snapshot without a vintage,
-- else `ArchiveOnly` if a data file yielded a snapshot with a vintage, and else `NotFound`.
pub status-lookup_report :
    (query : Bytes) (us : Option CallSnapshot) (dat hci : List CallSnapshot)
    → (lookup_report query us dat hci).status ≡ status_from us dat hci
unfolding lookup_report
status-lookup_report query us dat hci =
    let start : Found = record { current = us; history = [] } in
    let mid = merge_snapshots start dat in
    let found = merge_snapshots mid hci in
    status_of_tests found.current (sort_history found.history)
      (is_some us || any_undated dat || any_undated hci) (any_dated dat || any_dated hci)
      (is_some-merge_snapshots mid hci
        ∙ ap (λ b. b || any_undated hci) (is_some-merge_snapshots start dat)
        ∙ ground arith)
      (is_empty-sort_history found.history
        ∙ is_empty-merge_snapshots mid hci
        ∙ ap (λ b. b && not (any_dated hci)) (is_empty-merge_snapshots start dat)
        ∙ ground arith)
