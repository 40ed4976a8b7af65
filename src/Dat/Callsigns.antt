-- ===== src/Dat/Callsigns.antt =====
-- The snapshots of a query by the inverted index have the callsign asked for.
use callbook_rs.Prelude.{
  All, All-append, Bool, Bool-cases, Bytes, Holds, List, Option, [], any, arith, false, filter,
  filter_map, if◌then◌else◌, inl, inr, is_empty, length, map_option-eq-some, none, some,
  some-injective, subst, sym, true, ℕ, ◌==◌, ◌∷◌, ◌≡◌,
}
use callbook_rs.Modern.Snapshot.{ham_call_dat_idx, CallSnapshot, ham_call_hci, SnapshotSource}
use callbook_rs.IdxText.Line.{TextEntry}
use callbook_rs.IdxText.Find.{find_callsign_all}
use callbook_rs.Hci.Data.{HciFile, HciPosting}
use callbook_rs.Hci.KeyIndex.{postings_for_key}
use callbook_rs.V2Record.Segment.{
  Tables, parse_segment, matching_segment, parse_matching_snapshots,
  parse_complete_matching_snapshots,
}
use callbook_rs.V2Record.Cut.{cut, all_but_last, visit_segments-cut, visit_complete-cut}
use callbook_rs.V2Record.Laws.{has_callsign, filter_map-matching_segment}
use callbook_rs.Dat.{decode_from_offset, decode_hci_posting_record}
use callbook_rs.Dat.Query.{
  RawV2Record, best_decoded_bytes, parse_raw, parse_entries, raw_record_for, lookup_dat_idx,
  V2Shard, tables_of, parse_and_filter, parse_windows, decode_and_parse_hci_offset, HciScan,
  visit_hci_posting, visit_hci_postings, visit_hci_keys, visit_hci_lookup_keys, cleared_scan,
  lookup_in_hci, lookup_hci,
}

abbrev pub HaveCallsign : Bytes → List CallSnapshot → Type 0
HaveCallsign callsign snapshots = All (Holds (has_callsign callsign)) snapshots

filter-Holds : (p : CallSnapshot → Bool) (xs : List CallSnapshot) → All (Holds p) (filter p xs)
filter-Holds p [] = tt
filter-Holds p (x ∷ xs) = elim (Bool-cases (p x)) [
  | inl e ↦ rw e (e, filter-Holds p xs)
  | inr e ↦ rw e (filter-Holds p xs)
]

segments-HaveCallsign :
    (tables : Tables) (default_key : Option Bytes) (callsign : Bytes) (segments : List Bytes)
    → HaveCallsign callsign (filter_map (matching_segment tables default_key callsign) segments)
segments-HaveCallsign tables dk cs segments =
    subst (HaveCallsign cs) (sym (filter_map-matching_segment tables dk cs segments))
      (filter-Holds (has_callsign cs) (filter_map (parse_segment tables dk) segments))

parse_and_filter-HaveCallsign :
    (v2 : V2Shard) (decoded callsign : Bytes) (default_key : Option Bytes) (source : SnapshotSource)
    → HaveCallsign callsign (parse_and_filter v2 decoded default_key callsign source)
unfolding parse_and_filter parse_matching_snapshots
parse_and_filter-HaveCallsign v2 decoded cs dk source =
    let visit = matching_segment (tables_of v2 source) dk cs in
    subst (HaveCallsign cs) (sym (visit_segments-cut visit (length decoded) decoded (omega arith)))
      (segments-HaveCallsign (tables_of v2 source) dk cs (cut decoded))

complete-HaveCallsign :
    (tables : Tables) (default_key : Option Bytes) (callsign decoded : Bytes)
    → HaveCallsign callsign (parse_complete_matching_snapshots tables default_key callsign decoded)
unfolding parse_complete_matching_snapshots
complete-HaveCallsign tables dk cs decoded =
    let visit = matching_segment tables dk cs in
    subst (HaveCallsign cs) (sym (visit_complete-cut visit (length decoded) decoded (omega arith)))
      (segments-HaveCallsign tables dk cs (all_but_last (cut decoded)))

either-HaveCallsign :
    (callsign : Bytes) (b : Bool) (xs ys : List CallSnapshot)
    → HaveCallsign callsign xs
    → HaveCallsign callsign ys
    → HaveCallsign callsign (if b then xs else ys)
either-HaveCallsign cs true xs ys h k = h
either-HaveCallsign cs false xs ys h k = k

parse_windows-HaveCallsign :
    (v2 : V2Shard) (off : ℕ) (callsign : Bytes) (lens : List ℕ)
    → HaveCallsign callsign (parse_windows v2 off callsign lens)
unfolding parse_windows
parse_windows-HaveCallsign v2 off cs [] =
    parse_and_filter-HaveCallsign v2 (decode_from_offset v2.dat_mmap off 8192) cs none ham_call_hci
parse_windows-HaveCallsign v2 off cs (n ∷ lens) =
    let tables = tables_of v2 ham_call_hci in
    let decoded = decode_from_offset v2.dat_mmap off n in
    let found = parse_complete_matching_snapshots tables none cs decoded in
    either-HaveCallsign cs (is_empty found) (parse_windows v2 off cs lens) found
      (parse_windows-HaveCallsign v2 off cs lens) (complete-HaveCallsign tables none cs decoded)

decode_and_parse-HaveCallsign :
    (v2 : V2Shard) (off : ℕ) (callsign : Bytes)
    → HaveCallsign callsign (decode_and_parse_hci_offset v2 off callsign)
unfolding decode_and_parse_hci_offset
decode_and_parse-HaveCallsign v2 off cs =
    let decoded = decode_hci_posting_record v2.dat_mmap off in
    let found = parse_and_filter v2 decoded none cs ham_call_hci in
    let lens = 1024 ∷ 2048 ∷ 4096 ∷ [] in
    either-HaveCallsign cs (is_empty found) (parse_windows v2 off cs lens) found
      (parse_windows-HaveCallsign v2 off cs lens)
      (parse_and_filter-HaveCallsign v2 decoded cs none ham_call_hci)

visit_hci_posting-HaveCallsign :
    (v2 : V2Shard) (callsign : Bytes) (posting : HciPosting) (scan : HciScan)
    → HaveCallsign callsign scan.snapshots
    → HaveCallsign callsign (visit_hci_posting v2 callsign posting scan).snapshots
unfolding visit_hci_posting
visit_hci_posting-HaveCallsign v2 cs posting scan h =
    elim (Bool-cases (any (λ seen. seen == posting.dat_offset) scan.seen_offsets)) [
      | inl e ↦ rw e h
      | inr e ↦ rw e (
          All-append (Holds (has_callsign cs)) scan.snapshots
            (decode_and_parse_hci_offset v2 posting.dat_offset cs) h
            (decode_and_parse-HaveCallsign v2 posting.dat_offset cs))
    ]

visit_hci_postings-HaveCallsign :
    (v2 : V2Shard) (callsign : Bytes) (postings : List HciPosting) (scan : HciScan)
    → HaveCallsign callsign scan.snapshots
    → HaveCallsign callsign (visit_hci_postings v2 callsign postings scan).snapshots
unfolding visit_hci_postings
visit_hci_postings-HaveCallsign v2 cs [] scan h = h
visit_hci_postings-HaveCallsign v2 cs (p ∷ ps) scan h =
    visit_hci_postings-HaveCallsign v2 cs ps (visit_hci_posting v2 cs p scan)
      (visit_hci_posting-HaveCallsign v2 cs p scan h)

visit_hci_keys-HaveCallsign :
    (v2 : V2Shard) (hci : HciFile) (callsign : Bytes) (keys : List Bytes) (scan : HciScan)
    → HaveCallsign callsign scan.snapshots
    → HaveCallsign callsign (visit_hci_keys v2 hci callsign keys scan).snapshots
unfolding visit_hci_keys
visit_hci_keys-HaveCallsign v2 hci cs [] scan h = h
visit_hci_keys-HaveCallsign v2 hci cs (key ∷ keys) scan h =
    visit_hci_keys-HaveCallsign v2 hci cs keys
      (visit_hci_postings v2 cs (postings_for_key hci key) scan)
      (visit_hci_postings-HaveCallsign v2 cs (postings_for_key hci key) scan h)

parse_raw-HaveCallsign :
    (v2 : V2Shard) (callsign : Bytes) (raw : Option RawV2Record)
    → HaveCallsign callsign (parse_raw v2 callsign raw)
parse_raw-HaveCallsign v2 cs none = tt
parse_raw-HaveCallsign v2 cs (some raw) =
    parse_and_filter-HaveCallsign v2 (best_decoded_bytes raw) cs (some raw.key) ham_call_dat_idx

parse_entries-HaveCallsign :
    (v2 : V2Shard) (callsign : Bytes) (entries : List TextEntry)
    → HaveCallsign callsign (parse_entries v2 callsign entries)
unfolding parse_entries
parse_entries-HaveCallsign v2 cs [] = tt
parse_entries-HaveCallsign v2 cs (entry ∷ entries) =
    All-append (Holds (has_callsign cs)) (parse_raw v2 cs (raw_record_for v2 entry))
      (parse_entries v2 cs entries) (parse_raw-HaveCallsign v2 cs (raw_record_for v2 entry))
      (parse_entries-HaveCallsign v2 cs entries)

-- Every snapshot that `lookup_dat_idx` returns has the callsign asked for, up to ASCII case, whatever
-- the index and the file hold.
pub lookup_dat_idx-HaveCallsign :
    (v2 : V2Shard) (callsign : Bytes) → HaveCallsign callsign (lookup_dat_idx v2 callsign)
unfolding lookup_dat_idx
lookup_dat_idx-HaveCallsign v2 cs = parse_entries-HaveCallsign v2 cs (find_callsign_all v2.idx cs)

-- Every snapshot that `lookup_hci_into` leaves in the scratch has the callsign asked for, up to ASCII
-- case, wherever the postings lead and whichever window it was read in.
pub lookup_hci-HaveCallsign :
    (v2 : V2Shard) (callsign : Bytes) (snapshots : List CallSnapshot)
    → lookup_hci v2 callsign ≡ some snapshots
    → HaveCallsign callsign snapshots
unfolding lookup_hci
lookup_hci-HaveCallsign v2 cs snapshots h = go v2.hci h
  where
    go : (o : Option HciFile) → lookup_in_hci v2 cs o ≡ some snapshots → HaveCallsign cs snapshots
    go none e = subst (HaveCallsign cs) (some-injective e) tt
    go (some hci) e =
        let result : List Bytes → List CallSnapshot =
          λ keys. (visit_hci_keys v2 hci cs keys cleared_scan).snapshots in
        let (keys, found, is) =
          map_option-eq-some result (visit_hci_lookup_keys cs hci.publication_years) e in
        subst (HaveCallsign cs) is (visit_hci_keys-HaveCallsign v2 hci cs keys cleared_scan tt)
