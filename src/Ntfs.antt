-- ===== src/Ntfs.antt =====
-- crates/vajra-fs-ntfs: records of the master file table, run lists and the allocation bitmap.
pub mod Boot
pub mod Fixup
pub mod Runs
pub mod Text
pub mod Attribute
pub mod Record
pub mod Bitmap
pub mod Entry
pub mod Vss
pub mod Parser
pub mod Examples
