-- ===== src/Acquire.antt =====
-- crates/vajra-acquire: copying a source block by block, and the record of what could not be read.
pub mod BadSector
pub mod Engine
pub mod Examples
