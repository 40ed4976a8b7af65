-- ===== src/Hci/KeyIndex.antt =====
-- The table of keys by hash that `open` builds, and the searches in it.
pub mod Slice
pub mod Refs
pub mod Laws
use callbook_rs.Prelude.{
  Bool, Bytes, List, Option, [], codes, cons_some, drop, if◌then◌else◌, is_empty, leb, length, ltb,
  none, not, slice, some, ℕ, ◌%◌, ◌&&◌, ◌++◌, ◌+◌, ◌==◌, ◌>>=◌, ◌^◌, ◌||◌, ◌∷◌,
}
use callbook_rs.Prelude.Search.{partition_point}
use callbook_rs.Error.{Result, ok, err, malformed_header}
use callbook_rs.Hci.Data.{
  HciFile, HciKeyRef, RawHciRecord, HciPosting, from_be_bytes, outside, raw_record,
}
use callbook_rs.Hci.Header.{HciHeaderKey, decode_header_key, decoded_header_matches, hash_key}
use callbook_rs.Hci.Posting.{visit_postings}

-- `chunks_exact(4)` with `from_be_bytes`.
unfoldable pub chunk_offsets : Bytes → List ℕ
chunk_offsets [] = []
chunk_offsets (a ∷ []) = []
chunk_offsets (a ∷ b ∷ []) = []
chunk_offsets (a ∷ b ∷ c ∷ []) = []
chunk_offsets (a ∷ b ∷ c ∷ d ∷ rest) = from_be_bytes a b c d ∷ chunk_offsets rest

-- The vectors that `build_key_index` fills.
pub record KeyIndex : Type 0 where
  pub entries : List HciKeyRef
  pub years : List ℕ

abbrev push_year : Option ℕ → List ℕ → List ℕ
push_year none years = years
push_year (some year) years = years ++ (year ∷ [])

-- What is pushed for a decoded header; an ordinal that is no `u32` is left out.
abbrev push_header : ℕ → Option HciHeaderKey → KeyIndex → KeyIndex
push_header index none found = found
push_header index (some header) found =
    if ltb index (2 ^ 32)
    then record {
      entries = found.entries ++ (record { hash = header.hash; index = index } ∷ []);
      years = push_year header.year found.years;
    }
    else found

unfoldable pub push_hci_key_ref : Bytes → ℕ → ℕ → ℕ → KeyIndex → KeyIndex
unfolding decode_header_key
push_hci_key_ref dat index start end found =
    if outside (length dat) start end
    then found
    else push_header index (decode_header_key start (slice dat start end)) found

-- The loop over the offsets from the second one on, with the variable `previous`, and the push of
-- the last record behind it.
unfoldable pub push_from : Bytes → ℕ → ℕ → List ℕ → KeyIndex → KeyIndex
unfolding push_hci_key_ref
push_from dat index previous [] found = push_hci_key_ref dat index previous (length dat) found
push_from dat index previous (current ∷ offsets) found =
    push_from dat (index + 1) current offsets (push_hci_key_ref dat index previous current found)

abbrev pub push_all : Bytes → List ℕ → KeyIndex
push_all dat [] = record { entries = []; years = [] }
push_all dat (first ∷ offsets) = push_from dat 0 first offsets (record { entries = []; years = [] })

-- The order of `sort_unstable_by`: by hash, then by ordinal.
unfoldable pub ref_before : HciKeyRef → HciKeyRef → Bool
ref_before a b = ltb a.hash b.hash || (a.hash == b.hash && ltb a.index b.index)

unfoldable pub insert_ref : HciKeyRef → List HciKeyRef → List HciKeyRef
unfolding ref_before
insert_ref ref [] = ref ∷ []
insert_ref ref (r ∷ refs) =
    let rest = insert_ref ref refs in if ref_before r ref then r ∷ rest else ref ∷ r ∷ refs

-- Two references that compare equal are equal, so every sort gives this list.
unfoldable pub sort_refs : List HciKeyRef → List HciKeyRef
unfolding insert_ref
sort_refs [] = []
sort_refs (ref ∷ refs) = insert_ref ref (sort_refs refs)

unfoldable pub insert_year : ℕ → List ℕ → List ℕ
insert_year year [] = year ∷ []
insert_year year (y ∷ years) =
    let rest = insert_year year years in if ltb y year then y ∷ rest else year ∷ y ∷ years

unfoldable pub sort_years : List ℕ → List ℕ
unfolding insert_year
sort_years [] = []
sort_years (year ∷ years) = insert_year year (sort_years years)

-- `Vec::dedup`: of equal neighbours the first is kept.
unfoldable pub dedup : List ℕ → List ℕ
dedup [] = []
dedup (y ∷ []) = y ∷ []
dedup (y ∷ z ∷ years) = let rest = dedup (z ∷ years) in if y == z then rest else y ∷ rest

unfoldable pub build_key_index : Bytes → Bytes → KeyIndex
unfolding chunk_offsets push_from sort_refs sort_years dedup
build_key_index index_mmap dat_mmap =
    let found = push_all dat_mmap (chunk_offsets index_mmap) in
    record { entries = sort_refs found.entries; years = dedup (sort_years found.years) }

abbrev pub opened : Bytes → Bytes → HciFile
opened index_mmap dat_mmap = record {
  index_mmap = index_mmap;
  dat_mmap = dat_mmap;
  key_index = (build_key_index index_mmap dat_mmap).entries;
  publication_years = (build_key_index index_mmap dat_mmap).years;
}

-- `open`, on the contents of the two files.
unfoldable pub open_hci : Bytes → Bytes → Result HciFile
unfolding build_key_index
open_hci index_mmap dat_mmap =
    if not (length index_mmap % 4 == 0)
    then err (malformed_header (codes "HCI index size is not a multiple of 4 bytes"))
    else if is_empty index_mmap
    then err (malformed_header (codes "HCI index is empty"))
    else ok (opened index_mmap dat_mmap)

-- The slice of the table with the hash of the key.
unfoldable pub refs_for_key : HciFile → Bytes → List HciKeyRef
unfolding hash_key
refs_for_key hci key =
    let hash = hash_key key in
    let start = partition_point (λ ref. ltb ref.hash hash) hci.key_index in
    let end = partition_point (λ ref. leb ref.hash hash) hci.key_index in
    slice hci.key_index start end

-- The body of the loops of `visit_records_for_key`: the record and the length of its header, if its
-- header matches.
abbrev pub matching_record : Bytes → RawHciRecord → Option (RawHciRecord × ℕ)
matching_record key raw = do
  header_len ← decoded_header_matches raw.dat_offset raw.raw_bytes key
  some (raw, header_len)

unfoldable pub record_for_key : HciFile → Bytes → ℕ → Option (RawHciRecord × ℕ)
record_for_key hci key index = raw_record hci index >>= matching_record key

unfoldable pub visit_refs : HciFile → Bytes → List HciKeyRef → List (RawHciRecord × ℕ)
unfolding record_for_key
visit_refs hci key [] = []
visit_refs hci key (entry ∷ entries) =
    cons_some (record_for_key hci key entry.index) (visit_refs hci key entries)

-- The records that the visitor of `visit_records_for_key` is called with, in that order.
unfoldable pub visit_records_for_key : HciFile → Bytes → List (RawHciRecord × ℕ)
unfolding refs_for_key visit_refs
visit_records_for_key hci key = visit_refs hci key (refs_for_key hci key)

abbrev pub postings_of : Option (RawHciRecord × ℕ) → List HciPosting
postings_of none = []
postings_of (some (raw, header_len)) = visit_postings (drop header_len raw.raw_bytes)

unfoldable pub visit_ref_postings : HciFile → Bytes → List HciKeyRef → List HciPosting
unfolding record_for_key
visit_ref_postings hci key [] = []
visit_ref_postings hci key (entry ∷ entries) =
    postings_of (record_for_key hci key entry.index) ++ visit_ref_postings hci key entries

-- `visit_postings_for_key`, and `postings_for_key`, which collects them.
unfoldable pub postings_for_key : HciFile → Bytes → List HciPosting
unfolding refs_for_key visit_ref_postings
postings_for_key hci key = visit_ref_postings hci key (refs_for_key hci key)
