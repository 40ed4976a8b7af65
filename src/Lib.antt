-- ===== src/Lib.antt =====
-- Verification library of the crate `callbook`, a reader of the HamCall callsign database
-- (crates/callbook). A query is a callsign; it is normalised to a key (callsign.rs), searched in the
-- text index `hamcall.idx` (idx_text.rs), and the offset found there leads to a record of
-- `hamcall.dat` whose bytes are masked by a position-dependent XOR stream (v2_dat.rs, db.rs). The
-- snapshots that this and other sources yield are merged (modern.rs) into a report (db.rs).
--
-- Files and the code they are about, with paths below crates/callbook/src:
--   Prelude, Prelude/*   Boolean tests, lists, ASCII classes, trimming, the byte order, and the
--                        binary search `partition_point` of the standard library
--   Decimal              `str::parse` of unsigned integers
--   Error                error.rs: `Error` and `Result`
--   Callsign             callsign.rs: `Callsign::parse` (parse), `as_str`, `as_bytes`; KEY_LEN of
--                        format.rs. Callsign/Parse has the theorems
--   Cipher               v2_dat.rs: `decode_phase`, `decode_phase_into`, `phase_for_dat_offset`;
--                        db.rs: `decode_dat_byte`. Cipher/Score: `score_candidate`;
--                        Cipher/Ranking: `decode_candidates`. Cipher/Xor, Cipher/Stream and
--                        Cipher/Ranking/Ordered have the theorems
--   IdxText              idx_text.rs. IdxText/Line: `parse_line`, by slices, and
--                        `parse_index_line`, by its walk over positions;
--                        IdxText/Build: `open_with_stride`, `build_index` and the iterator
--                        `TextIdxIter`; IdxText/Find: the searches of `TextIdxFile`;
--                        IdxText/Verify: `VerifyReport` and `verify`; theorems in their children
--   Modern               modern.rs: Modern/Snapshot has the data, Modern/Tags the map operations on
--                        `raw_tags`, Modern/Merge `merge_missing_from` and `display_name`
--   Report               db.rs: `merge_snapshot`, and `lookup_report_with_scratch` from the point
--                        where the sources have yielded their snapshots: these are arguments
--   Country              country.rs: `build_first_byte_index`, `prefix_range_matches`, `lookup_info`
--                        and `lookup_linear_normalized` on a normalised callsign; Country/Parse:
--                        `parse_with_source` and the lookups by callsign. The metadata of a
--                        country is a type parameter of the lookups, and a panic is `none`
--   Hci                  hci.rs. Hci/Data: `HciFile`, `offset`, `raw_record`; Hci/Header: the byte
--                        stream, `hash_key` and the header decoders; Hci/Posting: `visit_postings`;
--                        Hci/KeyIndex: `open` (open_hci), `build_key_index` and the searches by key;
--                        Hci/Verify: `verify` (verify_hci); Hci/Stats: the posting statistics;
--                        theorems in their children
--   V2Record             v2_record.rs. V2Record/Text: trimming and keys; V2Record/Tags: `apply_tag`,
--                        `apply_country`, `apply_interests`; V2Record/Segment: `parse_segment`,
--                        `segment_matches` and the three parsers; theorems in the other children
--   Dat                  db.rs: the bounds of a record around an offset, and the decoding of it;
--                        Dat/Query: `lookup_hci_into` (lookup_hci) with its windows and its keys,
--                        and `lookup_dat_idx` with `raw_record_for` and the bytes of
--                        `best_candidate`; theorems in the other children
--                        Dat/Report: `CallBook::lookup_report` (lookup_callsign) over them
--                        Dat/Entries: `Entries` and `EntryIter`, and `stat_key_parts`
--                        Dat/Statistics: `record_statistics` and `JurisdictionCounts`
--   Scan                 db.rs: `InterestSearchScan` with `search_interest` (Scan/Search),
--                        `InterestScan` (Scan/Statistics) and `TagScan` (Scan/Tags). The first two
--                        have the same loop, which is a definition with their `finish_record` as its
--                        argument
--   Assets               db.rs: `callsign_assets`, the functions that collect files (collect_files is
--                        the walk that three of them share), and `safe_manifest_photo_path`. The tree
--                        of directories is an argument
--   Sidecar              sidecar.rs. Sidecar/Counts: `LookupCountFile`, `LookupCounts` and
--                        `LookupCountIter`; Sidecar/Boundary: `BoundaryFile`; Sidecar/Counties:
--                        `UsCountyBoundaryDataset`; Sidecar/States: `PackedStateMap`; Sidecar/Photos
--                        and Sidecar/Centroids: the photo manifest and `CountryNameTable`.
--                        Sidecar/Group is the loop that three of them share; Sidecar/Float is `f64`
--   Interest             interest.rs: `InterestTable` and its functions (parse_interests,
--                        lookup_interest, interest_codes_of, resolve_raw)
--   UsCsv                us_csv.rs on the rows of `usa.csv`, and `from_us_csv` of modern.rs
--   Tests                runs of the models, and the theorems at concrete inputs
--
-- Conventions. A byte is a natural number, and a `&[u8]`, a `&str` and a mapped file are lists of
-- bytes (a `&str` by its UTF-8 bytes). Machine integers are naturals with their bounds written out:
-- `checked_mul` and `checked_add` test against 2^64, `try_into` against 2^32 and 2^16, and the `i64`
-- sum of `decode_phase_into` wraps at 2^64 (offsets in the laws are below 2^63, since they are file
-- positions). An `i32` score is its bit pattern, and its arithmetic wraps at 2^32, as it does in a
-- build without overflow checks; only a record of more than 2^28 bytes gets there.
-- `partition_point` is a bisection of the list, whose law is proved for every predicate
-- that holds on a front of the list and fails behind it. A `BTreeMap` is the list of its entries
-- by increasing key, and a sort is an insertion sort, stable where the code's sort is.
--
-- A visitor that a function calls in a loop is the list of the arguments of its calls.
--
-- Loops. The loops over a file run on fuel equal to its length in bytes; every round takes at least
-- one byte, and the theorems on the iterator and on `open_with_stride` are about the results with
-- that fuel, so it is enough. The binary search of sidecar.rs has one more than the width of its range
-- as fuel, and the iteration over the entries one more than the number of lines and records of its
-- files; their theorems are again about the results with that fuel. The other loops are structural
-- recursion.
--
-- Parameters. The type `f64` with its parser and its operations, `String::from_utf8_lossy`, the test
-- for UTF-8, the tree of directories, and the rows that the zip and csv crates yield, are arguments. In
-- v2_record.rs and db.rs the table of countries is its function `lookup`. The loops on fuel over decoded bytes have their length as fuel.
--
-- Not modelled: memory mapping and opening of files, the C and Python bindings, the command line, and
-- the parts of db.rs that no file above names: profiles, maps, the asset catalogue, the lookup trace
-- and the text of `verify`.
pub mod Prelude
pub mod Error
pub mod Callsign
pub mod Cipher
pub mod Decimal
pub mod IdxText
pub mod Modern
pub mod Report
pub mod Country
pub mod Hci
pub mod Interest
pub mod UsCsv
pub mod Dat
pub mod V2Record
pub mod Sidecar
pub mod Assets
pub mod Scan
mod Tests
