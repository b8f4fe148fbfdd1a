-- ===== src/Erase.antt =====
-- crates/vajra-erase: the gate of confirmations before an erasure, and the choice of the method.
pub mod Gate
pub mod Decision
pub mod Overwrite
pub mod Methods
pub mod Assurance
pub mod Examples
