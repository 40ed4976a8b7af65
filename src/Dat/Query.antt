-- ===== src/Dat/Query.antt =====
-- `lookup_hci_into` and what it calls, and `raw_record_for`. A panic is `none`.
use callbook_rs.Prelude.{
  Bool, Bytes, List, Option, [], any, bytes_eq, drop, false, if◌then◌else◌, is_empty, leb, length,
  ltb, map_option, min, none, slice, some, then_some, to_ascii_uppercase, true, ℕ, ◌%◌, ◌++◌, ◌+◌,
  ◌-◌, ◌/◌, ◌==◌, ◌>>=◌, ◌||◌, ◌∷◌,
}
use callbook_rs.Prelude.Text.{str_trim, to_uppercase}
use callbook_rs.Country.{is_char_boundary}
use callbook_rs.Country.Parse.{CountryMatch}
use callbook_rs.Interest.{InterestTable}
use callbook_rs.Modern.Snapshot.{CallSnapshot, SnapshotSource, ham_call_hci, ham_call_dat_idx}
use callbook_rs.IdxText.Build.{TextIdxFile}
use callbook_rs.IdxText.Line.{TextEntry}
use callbook_rs.IdxText.Find.{next_entry_after_key, find_callsign_all}
use callbook_rs.Hci.Data.{HciFile, HciPosting}
use callbook_rs.Hci.KeyIndex.{postings_for_key}
use callbook_rs.Hci.Stats.{insert_offset}
use callbook_rs.UsCsv.{UsCsvFile}
use callbook_rs.V2Record.Segment.{
  Tables, parse_matching_snapshots, parse_complete_matching_snapshots,
}
use callbook_rs.Cipher.{decode_phase, phase_for_dat_offset}
use callbook_rs.Dat.{decode_hci_posting_record, decode_from_offset}

-- The fields of `V2Shard` that the lookups read; the table of countries is its function `lookup`.
pub record V2Shard : Type 0 where
  pub idx : TextIdxFile
  pub dat_mmap : Bytes
  pub hci : Option HciFile
  pub us_csv : Option UsCsvFile
  pub countries : Option (Bytes → Option CountryMatch)
  pub interests : Option InterestTable

abbrev pub tables_of : V2Shard → SnapshotSource → Tables
tables_of v2 source = record { source = source; countries = v2.countries; interests = v2.interests }

-- `parse_and_filter`.
unfoldable pub parse_and_filter :
    V2Shard → Bytes → Option Bytes → Bytes → SnapshotSource → List CallSnapshot
unfolding parse_matching_snapshots
parse_and_filter v2 decoded default_key callsign source =
    parse_matching_snapshots (tables_of v2 source) default_key callsign decoded

-- The loop over the windows, and the last one.
unfoldable pub parse_windows : V2Shard → ℕ → Bytes → List ℕ → List CallSnapshot
unfolding parse_complete_matching_snapshots parse_and_filter decode_from_offset
parse_windows v2 dat_offset callsign [] =
    parse_and_filter v2 (decode_from_offset v2.dat_mmap dat_offset 8192) none callsign ham_call_hci
parse_windows v2 dat_offset callsign (max_len ∷ lens) =
    let snapshots =
      parse_complete_matching_snapshots (tables_of v2 ham_call_hci) none callsign
        (decode_from_offset v2.dat_mmap dat_offset max_len) in
    let rest = parse_windows v2 dat_offset callsign lens in
    if is_empty snapshots then rest else snapshots

unfoldable pub decode_and_parse_hci_offset : V2Shard → ℕ → Bytes → List CallSnapshot
unfolding parse_and_filter parse_windows decode_hci_posting_record
decode_and_parse_hci_offset v2 dat_offset callsign =
    let snapshots =
      parse_and_filter v2 (decode_hci_posting_record v2.dat_mmap dat_offset) none callsign
        ham_call_hci in
    if is_empty snapshots
    then parse_windows v2 dat_offset callsign (1024 ∷ 2048 ∷ 4096 ∷ [])
    else snapshots

-- The four digits of a year.
abbrev pub year_digits : ℕ → Bytes
year_digits year =
    (b'0' + year / 1000 % 10)
    ∷ (b'0' + year / 100 % 10)
    ∷ (b'0' + year / 10 % 10)
    ∷ (b'0' + year % 10)
    ∷ []

-- The buffer has 32 bytes.
unfoldable pub hci_archive_key : Bytes → ℕ → Option Bytes
hci_archive_key call year =
    if ltb 32 (length call + 5) then none else some (call ++ (b':' ∷ year_digits year))

-- `&call[1..]`, where the call has more than one byte.
unfoldable pub suffix_of : Bytes → Option Bytes
suffix_of call =
    if ltb 1 (length call) then then_some (is_char_boundary call 1) (drop 1 call) else some call

-- The calls of the visitor for a year; a key that does not fit ends them.
abbrev pub suffix_key : Bool → Option Bytes → List Bytes
suffix_key true key = []
suffix_key false none = []
suffix_key false (some key) = key ∷ []

abbrev pub keys_of_year : Bytes → Bytes → ℕ → Option Bytes → List Bytes
keys_of_year call suffix year none = []
keys_of_year call suffix year (some key) =
    key ∷ suffix_key (bytes_eq suffix call) (hci_archive_key suffix year)

unfoldable pub keys_of_years : Bytes → Bytes → List ℕ → List Bytes
unfolding hci_archive_key bytes_eq
keys_of_years call suffix [] = []
keys_of_years call suffix (year ∷ years) =
    keys_of_year call suffix year (hci_archive_key call year) ++ keys_of_years call suffix years

-- The keys that the visitor of `visit_hci_lookup_keys` is called with.
unfoldable pub visit_hci_lookup_keys : Bytes → List ℕ → Option (List Bytes)
unfolding keys_of_years suffix_of to_ascii_uppercase str_trim bytes_eq
visit_hci_lookup_keys callsign years =
    let call = to_uppercase (str_trim callsign) in
    suffix_of call >>= λ suffix.
    some
      (call ∷ (suffix_key (bytes_eq suffix call) (some suffix) ++ keys_of_years call suffix years))

-- `hci_seen_offsets` and `hci_snapshots` of `LookupScratch`; the buffer of decoded bytes is cleared
-- before each use.
pub record HciScan : Type 0 where
  pub seen_offsets : List ℕ
  pub snapshots : List CallSnapshot

unfoldable pub visit_hci_posting : V2Shard → Bytes → HciPosting → HciScan → HciScan
unfolding decode_and_parse_hci_offset insert_offset
visit_hci_posting v2 callsign posting scan =
    if any (λ seen. seen == posting.dat_offset) scan.seen_offsets then scan else record {
      seen_offsets = insert_offset posting.dat_offset scan.seen_offsets;
      snapshots = scan.snapshots ++ decode_and_parse_hci_offset v2 posting.dat_offset callsign;
    }

unfoldable pub visit_hci_postings : V2Shard → Bytes → List HciPosting → HciScan → HciScan
unfolding visit_hci_posting
visit_hci_postings v2 callsign [] scan = scan
visit_hci_postings v2 callsign (posting ∷ postings) scan =
    visit_hci_postings v2 callsign postings (visit_hci_posting v2 callsign posting scan)

unfoldable pub visit_hci_keys : V2Shard → HciFile → Bytes → List Bytes → HciScan → HciScan
unfolding visit_hci_postings postings_for_key
visit_hci_keys v2 hci callsign [] scan = scan
visit_hci_keys v2 hci callsign (key ∷ keys) scan =
    visit_hci_keys v2 hci callsign keys
      (visit_hci_postings v2 callsign (postings_for_key hci key) scan)

abbrev pub cleared_scan : HciScan
cleared_scan = record { seen_offsets = []; snapshots = [] }

abbrev pub lookup_in_hci : V2Shard → Bytes → Option HciFile → Option (List CallSnapshot)
lookup_in_hci v2 callsign none = some []
lookup_in_hci v2 callsign (some hci) =
    map_option (λ keys. (visit_hci_keys v2 hci callsign keys cleared_scan).snapshots)
      (visit_hci_lookup_keys callsign hci.publication_years)

-- `lookup_hci_into`: the snapshots that it leaves in the scratch.
unfoldable pub lookup_hci : V2Shard → Bytes → Option (List CallSnapshot)
unfolding visit_hci_keys visit_hci_lookup_keys
lookup_hci v2 callsign = lookup_in_hci v2 callsign v2.hci

pub record RawV2Record : Type 0 where
  pub key : Bytes
  pub dat_offset : ℕ
  pub raw_len : ℕ
  pub raw_bytes : Bytes

abbrev pub next_offset : Option TextEntry → ℕ → ℕ
next_offset none dat_size = dat_size
next_offset (some entry) dat_size = entry.dat_offset

unfoldable pub raw_record_for : V2Shard → TextEntry → Option RawV2Record
unfolding next_entry_after_key
raw_record_for v2 entry =
    let dat_size = length v2.dat_mmap in
    let end = min (next_offset (next_entry_after_key v2.idx entry.key) dat_size) dat_size in
    if leb dat_size entry.dat_offset || ltb end entry.dat_offset
    then none
    else some (record {
      key = entry.key;
      dat_offset = entry.dat_offset;
      raw_len = end - entry.dat_offset;
      raw_bytes = slice v2.dat_mmap entry.dat_offset end;
    })

-- The bytes of `best_decoded_candidate`, which decodes with the phase of the record's offset. Its score
-- is left out: the query does not read it.
unfoldable pub best_decoded_bytes : RawV2Record → Bytes
unfolding decode_phase phase_for_dat_offset
best_decoded_bytes raw =
    decode_phase raw.dat_offset raw.raw_bytes (phase_for_dat_offset raw.dat_offset)

-- The body of the loop of `lookup_dat_idx`.
abbrev pub parse_raw : V2Shard → Bytes → Option RawV2Record → List CallSnapshot
parse_raw v2 callsign none = []
parse_raw v2 callsign (some raw) =
    parse_and_filter v2 (best_decoded_bytes raw) (some raw.key) callsign ham_call_dat_idx

unfoldable pub parse_entries : V2Shard → Bytes → List TextEntry → List CallSnapshot
unfolding parse_and_filter best_decoded_bytes raw_record_for
parse_entries v2 callsign [] = []
parse_entries v2 callsign (entry ∷ entries) =
    parse_raw v2 callsign (raw_record_for v2 entry) ++ parse_entries v2 callsign entries

unfoldable pub lookup_dat_idx : V2Shard → Bytes → List CallSnapshot
unfolding parse_entries find_callsign_all
lookup_dat_idx v2 callsign = parse_entries v2 callsign (find_callsign_all v2.idx callsign)
