-- ===== src/Raid/Level.antt =====
-- The enumerations of crates/vajra-raid/src/layout.rs.
pub data RaidLevel : Type 0 where
  raid0 raid5 raid6 : RaidLevel

pub data ParityLayout : Type 0 where
  left_symmetric left_asymmetric right_symmetric right_asymmetric : ParityLayout
