-- ===== src/Tests.antt =====
-- Runs of the models on small inputs, and each law applied at a concrete input.
pub mod Callsign
pub mod Cipher
pub mod IdxText
pub mod Modern
pub mod Report
pub mod Country
pub mod Hci
pub mod V2Record
pub mod Interest
pub mod UsCsv
pub mod Dat
pub mod Sidecar
pub mod Scan
pub mod Assets
