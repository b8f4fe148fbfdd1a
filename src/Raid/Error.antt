-- ===== src/Raid/Error.antt =====
-- crates/vajra-raid/src/error.rs and the part of crates/vajra-core/src/error.rs that the array
-- returns. A message that the source formats is a constructor that holds what is formatted.
use vajra_forensics_platform.Prelude.{ℕ}
pub use vajra_forensics_platform.Prelude.{Result, ok, err, panic, ◌>>=◌}
use vajra_forensics_platform.Raid.Level.{RaidLevel}

-- `IoError`, as the array builds it and as a member drive may return it.
pub data IoError : Type 0 where
  out_of_bounds : ℕ → ℕ → ℕ → IoError
  raid0_member_missing : ℕ → ℕ → IoError
  raid5_multiple_failures : ℕ → ℕ → IoError
  raid6_unrecoverable : ℕ → ℕ → IoError
  member_failure : ℕ → IoError

pub data RaidError : Type 0 where
  invalid_chunk_size : ℕ → RaidError
  not_sector_multiple : ℕ → ℕ → RaidError
  too_few_members : ℕ → ℕ → RaidError
  member_count_mismatch : ℕ → ℕ → RaidError
  insufficient_members : RaidLevel → ℕ → ℕ → RaidError
