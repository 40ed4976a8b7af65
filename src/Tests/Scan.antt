-- ===== src/Tests/Scan.antt =====
-- The scans of the DAT file, on a small file.
use callbook_rs.Callsign.{strip_ascii_whitespace, fill_key}
use callbook_rs.Prelude.Trim.{trim_end, trim_start}
use callbook_rs.Prelude.{
  All, Bool, Bytes, [], any, codes, map, none, refl, some, ℕ, ◌++◌, ◌∷◌, ◌≡◌, ◌≤◌,
}
use callbook_rs.Cipher.{decode_from, unmask}
use callbook_rs.Scan.Bodies.{records_in}
use callbook_rs.Scan.Search.{InterestSearchMatch, scan_interest_code}
use callbook_rs.Scan.Search.Matches.{Ascends, matches_of, scan_interest_code-matches_of}
use callbook_rs.Scan.Statistics.{InterestStatistics, interest_statistics}
use callbook_rs.Scan.Statistics.Counts.{IsCounted, interest_statistics-IsCounted}
use callbook_rs.Scan.Tags.{scan_tags}

abbrev lossy : Bytes → Bytes
lossy bytes = bytes

abbrev dat : Bytes
dat = decode_from 0 (
    codes "xx"
    ++ (0xb5 ∷ codes "W4O:2001"
        ++ (0xd5 ∷ codes "99999999")
        ++ (0xb5 ∷ codes "K1A"
            ++ (0xd5 ∷ codes "0001")
            ++ (0xb8 ∷ codes "Bob")
            ++ (0xd5 ∷ codes " 01239999"))
        ++ (0xb5 ∷ codes "K1A" ++ (0xd5 ∷ codes "9999"))))

search_9999 :
    scan_interest_code lossy dat (codes "9999")
    ≡ record { callsign = codes "K1A"; vintage = none }
      ∷ record { callsign = codes "W4O"; vintage = some 2001 }
      ∷ []
unfolding scan_interest_code unmask trim_end trim_start strip_ascii_whitespace fill_key
search_9999 = refl

scan_interest_code-matches_of_example :
    Ascends (scan_interest_code lossy dat (codes "9999"))
    × ((p : InterestSearchMatch → Bool)
        → any p (scan_interest_code lossy dat (codes "9999"))
          ≡ any p (matches_of lossy (codes "9999") (records_in (decode_from 0 dat))))
scan_interest_code-matches_of_example = scan_interest_code-matches_of lossy dat (codes "9999")

-- A code twice in a record counts as two occurrences.
abbrev statistics : InterestStatistics
statistics = interest_statistics lossy none 0 dat

occurrences_9999 : map (λ u. u.occurrences) statistics.unknown_codes ≡ 1 ∷ 4 ∷ []
unfolding interest_statistics unmask trim_end trim_start strip_ascii_whitespace fill_key
occurrences_9999 = refl

interest_statistics-IsCounted_example :
    (statistics.current_callsigns_with_interests ≤ statistics.current_snapshots_with_interests)
    × (statistics.current_callsigns_with_resolved_interests
        ≤ statistics.current_snapshots_with_interests)
    × All IsCounted statistics.unknown_codes
interest_statistics-IsCounted_example = interest_statistics-IsCounted lossy none 0 dat

tag_counts :
    map {B = ℕ × ℕ} (λ t. (t.tag, t.occurrences)) (scan_tags lossy dat) ≡ (0xb8, 1) ∷ (0xd5, 4) ∷ []
unfolding scan_tags unmask trim_end trim_start
tag_counts = refl
