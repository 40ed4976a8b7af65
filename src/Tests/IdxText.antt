-- ===== src/Tests/IdxText.antt =====
-- The text index.
use callbook_rs.Prelude.Search.{partition_point}
use callbook_rs.Prelude.Order.{lt_bytes}
use callbook_rs.Prelude.Trim.{trim_end}
use callbook_rs.Prelude.{
  All, Bytes, Holds, List, [], arith, codes, filter, length, map, map_option, none, refl, some,
  subst, sym, true, ◌++◌, ◌<◌, ◌∷◌, ◌≡◌, ◌≤◌, bytes_eq, starts_with,
}
use callbook_rs.Error.{ok}
use callbook_rs.IdxText.Line.{parse_line, parse_index_line, walk_back, find_crlf}
use callbook_rs.IdxText.Line.Fields.{KeyLeads, table_entry, parse_index_line-parse_line}
use callbook_rs.IdxText.Build.{TextIdxFile, open_with_stride, iter, entry_key, text_entry}
use callbook_rs.IdxText.Build.Lines.{NoCrlf, joined}
use callbook_rs.IdxText.Build.Entries.{ShortLine}
use callbook_rs.IdxText.Build.Opened.{
  opened, text_entries, open_with_stride-opened, text_entries-iter,
}
use callbook_rs.IdxText.Find.{find_callsign_all, head?, to_list}
use callbook_rs.IdxText.Find.Sorted.{KeysSorted, has_key, has_prefix}
use callbook_rs.IdxText.Find.Laws.{find_callsign_all-filter}
use callbook_rs.IdxText.Verify.{verify, is_clean, is_idx_byte}
use callbook_rs.IdxText.Verify.Clean.{OffsetsIncrease, verify_clean}
use callbook_rs.IdxText.Verify.Licensed.{find_callsign_all-verify}

abbrev line_text : Bytes
line_text = codes "0T805P:2015          1542 "

parse_line_text :
    parse_line line_text ≡ some (record { key = codes "0T805P:2015"; dat_offset = 1542 })
unfolding parse_line trim_end
parse_line_text = refl

parse_line_no_space : parse_line (codes "0T805P:2015") ≡ none
unfolding parse_line trim_end
parse_line_no_space = refl

parse_index_line_text :
    parse_index_line 7 line_text
    ≡ some (record { key_start = 7; key_len = 11; line_start = 7; dat_offset = 1542 })
unfolding parse_index_line trim_end walk_back
parse_index_line_text = refl

parse_index_line_digits : parse_index_line 7 (codes "1542") ≡ none
unfolding parse_index_line trim_end walk_back
parse_index_line_digits = refl

parse_index_line-parse_line_example :
    (parse_index_line 7 line_text ≡ map_option (table_entry 7) (parse_line line_text))
    × KeyLeads line_text (parse_line line_text)
parse_index_line-parse_line_example =
    parse_index_line-parse_line 7 line_text (omega arith) (omega arith)

abbrev lines : List Bytes
lines = codes "K1 5" ∷ codes "K1:99 70" ∷ codes "K2 81" ∷ []

abbrev tail : Bytes
tail = codes "K3"

abbrev index : TextIdxFile
index = opened 2 lines tail

lines-NoCrlf : All NoCrlf lines
unfolding find_crlf
lines-NoCrlf = (refl, (refl, (refl, tt)))

tail-NoCrlf : NoCrlf tail
unfolding find_crlf
tail-NoCrlf = refl

lines-ShortLine : All ShortLine lines
lines-ShortLine = (omega arith, (omega arith, (omega arith, tt)))

open_with_stride-opened_example : open_with_stride (joined lines tail) 2 ≡ ok index
open_with_stride-opened_example =
    open_with_stride-opened 2 lines tail lines-NoCrlf tail-NoCrlf (omega arith) (omega arith)
      (λ e. absurd (ground (arith, e)))

text_entries-iter_example : text_entries index ≡ iter index
text_entries-iter_example =
    text_entries-iter 2 lines tail lines-NoCrlf tail-NoCrlf (omega arith) lines-ShortLine

index-clean : is_clean (verify index) ≡ true
unfolding verify is_clean iter find_crlf parse_line trim_end lt_bytes
index-clean = refl

verify_clean_example :
    KeysSorted (iter index)
    × OffsetsIncrease (iter index)
    × (index.line_count ≤ length (iter index))
    × (0 < length (iter index))
    × All (Holds is_idx_byte) index.mmap
verify_clean_example = verify_clean index index-clean

text_entries_same : text_entries index ≡ iter index
text_entries_same =
    text_entries-iter 2 lines tail lines-NoCrlf tail-NoCrlf (omega arith) lines-ShortLine

index-KeysSorted : KeysSorted (text_entries index)
index-KeysSorted = subst KeysSorted (sym text_entries_same) (verify_clean index index-clean).0

find_callsign_all-filter_example :
    find_callsign_all index (codes "K1")
    ≡ to_list (head? (filter (has_key (codes "K1")) (text_entries index)))
      ++ filter (has_prefix (codes "K1:")) (text_entries index)
find_callsign_all-filter_example = find_callsign_all-filter index index-KeysSorted (codes "K1")

find_callsign_all-verify_example :
    find_callsign_all index (codes "K1")
    ≡ to_list (head? (filter (has_key (codes "K1")) (iter index)))
      ++ filter (has_prefix (codes "K1:")) (iter index)
find_callsign_all-verify_example =
    find_callsign_all-verify 2 lines tail (codes "K1") lines-NoCrlf tail-NoCrlf (omega arith)
      lines-ShortLine index-clean

-- Two entries carry the callsign, one of them with a year.
find_callsign_all_k1 : map (λ e. e.dat_offset) (find_callsign_all index (codes "K1")) ≡ 5 ∷ 70 ∷ []
unfolding find_callsign_all partition_point parse_index_line walk_back trim_end lt_bytes entry_key
    bytes_eq text_entry starts_with
find_callsign_all_k1 = refl
