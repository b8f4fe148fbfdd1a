-- ===== src/Audit.antt =====
-- crates/vajra-audit: the hash-chained audit log, and the table that keeps it.
pub mod Entry
pub mod Table
pub mod Chain
pub mod Anchor
pub mod Examples
