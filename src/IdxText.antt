-- ===== src/IdxText.antt =====
-- crates/callbook/src/idx_text.rs: the text index `hamcall.idx`, its lines, the table that `open`
-- builds, the searches, the iterator and the verification report.
pub mod Line
pub use Line.{TextEntry, TextIndexEntry}
unfoldable pub use Line.{
  trim_ascii_trailing_spaces, parse_line, parse_index_line, parse_decimal_u64, find_crlf,
}
pub mod Build
pub mod Find
pub mod Verify
