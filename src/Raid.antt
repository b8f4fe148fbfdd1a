-- ===== src/Raid.antt =====
-- crates/vajra-raid: the field arithmetic, the geometry and the array.
pub mod Galois
pub mod Level
pub mod Error
pub mod Layout
pub mod Array
pub mod Examples
