-- ===== src/Custody.antt =====
-- crates/vajra-custody: the custody events of an evidence item and the rules of their order.
pub mod Events
pub mod Store
pub mod Tracker
pub mod Examples
