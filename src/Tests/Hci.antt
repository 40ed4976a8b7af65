-- ===== src/Tests/Hci.antt =====
-- The inverted index.
use callbook_rs.Hci.Posting.{visit_postings}
use callbook_rs.Cipher.{unmask}
use callbook_rs.Prelude.{
  All, Bytes, Holds, [], arith, codes, is_ascii_whitespace, length, refl, some, unwrap_or, ℕ, ◌++◌,
  ◌+◌, ◌↔◌, ◌∷◌, ◌≡◌,
}
use callbook_rs.Prelude.Search.{partition_point}
use callbook_rs.Prelude.Trim.{trim, trim_end, trim_start}
use callbook_rs.Hci.Data.{HciFile, RawHciRecord, raw_record, offset, len}
use callbook_rs.Hci.Header.{
  HciHeaderKey, decode_header_key, decoded_header_matches, decode_hci_byte, is_key_byte, hash_key,
  looks_like_callsign_header,
}
use callbook_rs.Hci.Header.Match.{decoded_header_matches-decode_header_key}
use callbook_rs.Hci.KeyIndex.{opened, postings_for_key, visit_records_for_key, build_key_index}
use callbook_rs.Hci.KeyIndex.Laws.{scan_records, visit_records_for_key-scan_records}
use callbook_rs.Hci.Verify.{verify_hci}
use callbook_rs.Hci.Verify.Records.{raw_record-verify_hci}
use callbook_rs.Hci.Stats.{callsign_posting_statistics}
use callbook_rs.Hci.Stats.Totals.{
  callsign_posting_statistics_totals, total_over, undated_postings, dated_postings,
  sum_year_postings, YearsAscend,
}

-- The stream is its own inverse, so it also encodes.
abbrev encoded : ℕ → ℕ → Bytes → Bytes
encoded dat_offset zero_based [] = []
encoded dat_offset zero_based (b ∷ bs) =
    decode_hci_byte dat_offset zero_based b ∷ encoded dat_offset (zero_based + 1) bs

-- The key K1 with two postings, and K1:1999 with one.
abbrev first_record : Bytes
first_record =
    encoded 0 0 (codes "K1" ++ (0xb5 ∷ [])) ++ (0 ∷ 0 ∷ 1 ∷ 2 ∷ 7 ∷ 0 ∷ 0 ∷ 0 ∷ 9 ∷ 8 ∷ 255 ∷ [])

abbrev second_record : Bytes
second_record = encoded 14 0 (codes "K1:1999" ++ (0xb5 ∷ [])) ++ (0 ∷ 0 ∷ 0 ∷ 9 ∷ 1 ∷ 255 ∷ [])

abbrev index_mmap : Bytes
index_mmap = 0 ∷ 0 ∷ 0 ∷ 0 ∷ 0 ∷ 0 ∷ 0 ∷ 14 ∷ []

abbrev dat_mmap : Bytes
dat_mmap = first_record ++ second_record

abbrev hci : HciFile
hci = opened index_mmap dat_mmap

k1_postings :
    postings_for_key hci (codes "K1")
    ≡ (record { dat_offset = 258; position = 7 } ∷ record { dat_offset = 9; position = 8 } ∷ [])
unfolding postings_for_key partition_point build_key_index unmask raw_record decoded_header_matches
    visit_postings
k1_postings = refl

k1_missing : postings_for_key hci (codes "K2") ≡ []
unfolding postings_for_key partition_point build_key_index unmask
k1_missing = refl

hci_years : hci.publication_years ≡ (1999 ∷ [])
unfolding build_key_index unmask
hci_years = refl

record_at_1 :
    raw_record hci 1
    ≡ some (record { index = 1; dat_offset = 14; raw_len = 14; raw_bytes = second_record })
unfolding raw_record
record_at_1 = refl

hci_verified :
    ((verify_hci hci).offset_order_violations ≡ 0) × ((verify_hci hci).out_of_bounds_offsets ≡ 0)
unfolding verify_hci offset
hci_verified = (refl, refl)

hci_counts :
    ((callsign_posting_statistics hci).current_postings ≡ 2)
    × ((callsign_posting_statistics hci).archive_postings ≡ 1)
unfolding callsign_posting_statistics raw_record decode_header_key unmask looks_like_callsign_header
    trim trim_end trim_start is_ascii_whitespace visit_postings
hci_counts = (refl, refl)

k1-good : All (Holds is_key_byte) (codes "K1")
unfolding is_key_byte
k1-good = (refl, (refl, tt))

k1-not_empty : ¬ (codes "K1" ≡ [])
k1-not_empty e = absurd (ground arith)

decoded_header_matches-decode_header_key_example :
    (decoded_header_matches 0 first_record (codes "K1") ≡ some 3) ↔ (
      (h : HciHeaderKey) × (decode_header_key 0 first_record ≡ some h)
      × (h.hash ≡ hash_key (codes "K1"))
      × (h.key ≡ codes "K1")
      × (h.header_len ≡ 3))
decoded_header_matches-decode_header_key_example =
    decoded_header_matches-decode_header_key 0 first_record (codes "K1") 3 k1-good k1-not_empty

visit_records_for_key-scan_records_example :
    visit_records_for_key hci (codes "K1") ≡ scan_records hci (codes "K1") (len hci) 0
visit_records_for_key-scan_records_example =
    visit_records_for_key-scan_records index_mmap dat_mmap (codes "K1") (omega arith) k1-good
      k1-not_empty

raw_record-verify_hci_example :
    (raw : RawHciRecord) × (raw_record hci 1 ≡ some raw)
    × (offset hci 1 ≡ some raw.dat_offset)
    × (unwrap_or (offset hci 2) (length hci.dat_mmap) ≡ raw.dat_offset + raw.raw_len)
raw_record-verify_hci_example =
    raw_record-verify_hci hci 1 hci_verified.0 hci_verified.1 (omega arith)

callsign_posting_statistics_totals_example :
    ((callsign_posting_statistics hci).current_postings
      ≡ total_over undated_postings hci (len hci) 0)
    × ((callsign_posting_statistics hci).archive_postings
        ≡ total_over dated_postings hci (len hci) 0)
    × (sum_year_postings (callsign_posting_statistics hci).archive_years
        ≡ (callsign_posting_statistics hci).archive_postings)
    × YearsAscend (callsign_posting_statistics hci).archive_years
callsign_posting_statistics_totals_example = callsign_posting_statistics_totals hci
