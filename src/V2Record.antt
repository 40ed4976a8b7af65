-- ===== src/V2Record.antt =====
-- crates/callbook/src/v2_record.rs: the logical records in the decoded bytes of `hamcall.dat`.
pub mod Text
pub mod Tags
pub mod Segment
pub mod Identity
pub mod Match
pub mod Cut
pub mod Laws
pub mod Keys
