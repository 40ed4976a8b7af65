-- ===== src/Hci.antt =====
-- crates/callbook/src/hci.rs: the inverted index `hciindex.dat` and `hci.dat`. The file mappings are
-- the byte strings of the two files; paths are not kept.
pub mod Data
pub mod Header
pub mod Posting
pub mod KeyIndex
pub mod Verify
pub mod Stats
