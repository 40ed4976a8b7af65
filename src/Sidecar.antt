-- ===== src/Sidecar.antt =====
-- crates/callbook/src/sidecar.rs: the readers of the files under `ham0/`, and of the photo manifest.
pub mod Counts
pub mod Search
pub mod Catalog
pub mod Group
pub mod Float
pub mod Boundary
pub mod Counties
pub mod Photos
pub mod States
pub mod Centroids
