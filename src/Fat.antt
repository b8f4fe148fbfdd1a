-- ===== src/Fat.antt =====
-- crates/vajra-fs-fat: the geometry of a FAT volume, and the chains of its allocation table.
pub mod Bpb
pub mod Table
pub mod Extents
pub mod Entry
pub mod Examples
