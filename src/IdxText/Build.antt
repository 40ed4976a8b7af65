-- ===== src/IdxText/Build.antt =====
-- `TextIdxFile::open_with_stride` with `build_index`, and `TextIdxIter`. The file mapping is the
-- byte string of the file; paths are not kept.
pub mod Lines
pub mod Table
pub mod Entries
pub mod Opened
use callbook_rs.Prelude.{
  ℕ, suc, zero, ◌+◌, ◌-◌, ◌*◌, ◌%◌, ◌^◌, Bytes, Bool, true, false, Option, none, some, List, [],
  ◌∷◌, ◌++◌, ltb, ◌==◌, if◌then◌else◌, length, take, drop, codes,
}
use callbook_rs.Error.{Error, Result, ok, err, malformed_header, ◌>>=◌}
use callbook_rs.IdxText.Line.{TextEntry, TextIndexEntry, parse_line, parse_index_line, find_crlf}

pub record TextIdxFile : Type 0 where
  pub mmap : Bytes
  pub entries : List TextIndexEntry
  pub directory : List ℕ
  pub line_count : ℕ
  pub stride : ℕ

-- The variables of the `while pos < cap` loop; `rest` is `mmap[pos..]`.
pub record Scan : Type 0 where
  pub directory : List ℕ
  pub entries : List TextIndexEntry
  pub line_count : ℕ

abbrev pub too_large : Error
too_large = malformed_header (codes "IDX exceeds 4 GiB; u32 directory cannot index it")

-- The anchor pushed at the start of every `stride`-th line.
unfoldable pub push_anchor : ℕ → ℕ → Scan → Result Scan
push_anchor stride pos scan =
    if scan.line_count % stride == 0
    then if ltb pos (2 ^ 32)
      then ok (record scan { directory = scan.directory ++ pos ∷ [] })
      else err too_large
    else ok scan

-- The line is parsed, and counted whether it parses or not.
unfoldable pub push_line : ℕ → Bytes → Scan → Scan
push_line pos line scan = elim (parse_index_line pos line) [
  | none ↦ record scan { line_count = scan.line_count + 1 }
  | some entry ↦ record scan {
    entries = scan.entries ++ entry ∷ [];
    line_count = scan.line_count + 1;
  }
]

-- The fuel bounds the rest of the file: each round takes two bytes at least.
unfoldable pub scan_file : ℕ → ℕ → ℕ → Bytes → Scan → Result Scan
unfolding push_anchor push_line
scan_file fuel stride pos [] scan = ok scan
scan_file zero stride pos (b ∷ rest) scan = ok scan
scan_file (suc fuel) stride pos (b ∷ rest) scan = do
  scan' ← push_anchor stride pos scan
  elim (find_crlf (b ∷ rest)) [
    | none ↦ ok scan'
    | some line_end ↦
        scan_file fuel stride (pos + line_end + 2) (drop (line_end + 2) (b ∷ rest))
          (push_line pos (take line_end (b ∷ rest)) scan')
  ]

abbrev pub empty_scan : Scan
empty_scan = record { directory = []; entries = []; line_count = 0 }

abbrev not_empty : Scan → Result Scan
not_empty scan =
    if scan.line_count == 0
    then err (malformed_header (codes "IDX appears empty or malformed"))
    else ok scan

unfoldable pub build_index : Bytes → ℕ → Result Scan
unfolding scan_file
build_index mmap stride = do scan ← scan_file (length mmap) stride 0 mmap empty_scan; not_empty scan

unfoldable pub open_with_stride : Bytes → ℕ → Result TextIdxFile
unfolding build_index
open_with_stride mmap stride =
    if ltb stride 1 then err (malformed_header (codes "stride must be >= 1")) else do
      scan ← build_index mmap stride
      ok (record {
        mmap = mmap;
        entries = scan.entries;
        directory = scan.directory;
        line_count = scan.line_count;
        stride = stride;
      })

-- `open`, with `DEFAULT_DIRECTORY_STRIDE`.
unfoldable pub open_idx : Bytes → Result TextIdxFile
unfolding open_with_stride
open_idx mmap = open_with_stride mmap 256

-- What is left of the file after the entry that `next` returned.
pub record Next : Type 0 where
  pub entry : TextEntry
  pub rest : Bytes

-- `TextIdxIter::next` on `buf[pos..]`: lines that do not parse are skipped, and bytes with no line
-- end behind them end the iteration.
abbrev pub or_later : Option TextEntry → Bytes → Option Next → Option Next
or_later (some entry) rest later = some (record { entry = entry; rest = rest })
or_later none rest later = later

unfoldable pub next_entry : ℕ → Bytes → Option Next
next_entry fuel [] = none
next_entry zero (b ∷ rest) = none
next_entry (suc fuel) (b ∷ rest) = elim (find_crlf (b ∷ rest)) [
  | none ↦ none
  | some line_end ↦
      let rest' = drop (line_end + 2) (b ∷ rest) in
      let later = next_entry fuel rest' in
      or_later (parse_line (take line_end (b ∷ rest))) rest' later
]

-- A `for` loop over the iterator.
unfoldable pub iter_entries : ℕ → Bytes → List TextEntry
unfolding next_entry
iter_entries zero buf = []
iter_entries (suc fuel) buf = elim (next_entry (length buf) buf) [
  | none ↦ []
  | some next ↦ next.entry ∷ iter_entries fuel next.rest
]

unfoldable pub iter : TextIdxFile → List TextEntry
unfolding iter_entries
iter idx = iter_entries (length idx.mmap) idx.mmap

-- `entry_key` slices the mapping, and `text_entry_at` pairs the key with the offset.
unfoldable pub entry_key : Bytes → TextIndexEntry → Bytes
entry_key mmap entry = take entry.key_len (drop entry.key_start mmap)

unfoldable pub text_entry : Bytes → TextIndexEntry → TextEntry
unfolding entry_key
text_entry mmap entry = record { key = entry_key mmap entry; dat_offset = entry.dat_offset }
