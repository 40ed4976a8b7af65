-- ===== src/IdxText/Build/Opened.antt =====
-- What `open_with_stride` returns on a file given by its lines.
use callbook_rs.Prelude.{
  All, Bytes, List, [], arith, false, length, le→ltb, map, refl, sym, ℕ, ◌+◌, ◌<◌, ◌==◌, ◌^◌, ◌∙◌,
  ◌≡◌, ◌≢◌, ◌≤◌,
}
use callbook_rs.Error.{ok}
use callbook_rs.IdxText.Line.{TextEntry}
use callbook_rs.IdxText.Build.{
  TextIdxFile, empty_scan, build_index, open_with_stride, iter, text_entry, ◌∷◌,
}
use callbook_rs.IdxText.Build.Lines.{NoCrlf, joined}
use callbook_rs.IdxText.Build.Table.{index_lines, anchors, scan_file-scanned}
use callbook_rs.IdxText.Build.Entries.{
  ShortLine, index_lines-parsed_lines, iter_entries-parsed_lines, length-joined,
}

-- The index of a file with the lines `ls` and an unfinished last line `tail`.
abbrev pub opened : ℕ → List Bytes → Bytes → TextIdxFile
opened stride ls tail = record {
  mmap = joined ls tail;
  entries = index_lines 0 ls;
  directory = anchors stride 0 0 ls tail;
  line_count = length ls;
  stride = stride;
}

abbrev pub text_entries : TextIdxFile → List TextEntry
text_entries idx = map (text_entry idx.mmap) idx.entries

length-ne-nil : (ls : List Bytes) → ls ≢ [] → (length ls == 0) ≡ false
length-ne-nil [] h = absurd (h refl)
length-ne-nil (l ∷ ls) h = ground arith

module _ (stride : ℕ) (ls : List Bytes) (tail : Bytes) (clean : All NoCrlf ls) (end : NoCrlf tail)
    (small : length (joined ls tail) < 2 ^ 32) where
  -- `open_with_stride` succeeds on every file below 4 GiB with at least one complete line and a
  -- stride of at least 1: it counts all lines, keeps one entry for each line that
  -- `parse_index_line` reads, and anchors every `stride`-th line start.
  pub open_with_stride-opened :
      1 ≤ stride → ls ≢ [] → open_with_stride (joined ls tail) stride ≡ ok (opened stride ls tail)
  unfolding open_with_stride build_index
  open_with_stride-opened pos ne =
      let scan =
        scan_file-scanned (length (joined ls tail)) stride 0 ls tail empty_scan clean end
          (omega arith) (omega arith) in
      let e : 0 + length ls ≡ length ls = omega arith in
      rw (le→ltb stride 1 pos, scan, e, length-ne-nil ls ne) refl

  -- The table that `open` builds holds exactly what the iterator yields, in the same order, on a
  -- file below 4 GiB whose lines are shorter than 2^16 bytes.
  pub text_entries-iter :
      All ShortLine ls → text_entries (opened stride ls tail) ≡ iter (opened stride ls tail)
  unfolding iter
  text_entries-iter short =
      index_lines-parsed_lines (joined ls tail) 0 ls tail refl short (omega arith)
      ∙ sym (
          iter_entries-parsed_lines (length (joined ls tail)) ls tail clean end
            (length-joined ls tail))
