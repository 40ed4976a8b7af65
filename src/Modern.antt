-- ===== src/Modern.antt =====
-- crates/callbook/src/modern.rs: snapshots of a callsign and how two of them merge; with
-- `ResolvedInterest` of crates/callbook/src/interest.rs. Strings are byte strings.
pub mod Snapshot
pub mod Tags
pub mod Merge
