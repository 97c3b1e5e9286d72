-- ===== src/Manifest.antt =====
-- The crate bphelper-manifest, src/battery-pack/bphelper-manifest/src/lib.rs: what a battery pack
-- declares, its validation, and the resolution of active features to crates.
pub mod Example
pub mod Types
pub mod Report
pub mod Validate
pub mod Resolve
pub mod Merge
pub mod Check
pub mod Disk
pub mod Views
pub mod Parse
