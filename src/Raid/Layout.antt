-- ===== src/Raid/Layout.antt =====
-- crates/vajra-raid/src/layout.rs: the geometry of an array and its stripe mapping. `u64` sums and
-- products wrap; a `usize` is a `u64`, and a remainder by zero, which panics, does not arise on a
-- geometry that `new` accepts.
pub mod Rows
pub mod Places
pub mod Mapping
use vajra_forensics_platform.Prelude.{
  ℕ, zero, suc, ◌+◌, ◌-◌, ◌*◌, ◌/◌, ◌%◌, ◌^◌, min, max, bit_and, ◌||◌, ltb, leb, ◌==◌,
  if◌then◌else◌, u64, ℤ, pos, negsuc, sub_ℕ, not,
}
pub use vajra_forensics_platform.Raid.Level.{
  RaidLevel, raid0, raid5, raid6, ParityLayout, left_symmetric, left_asymmetric, right_symmetric,
  right_asymmetric,
}
use vajra_forensics_platform.Raid.Error.{
  RaidError, invalid_chunk_size, not_sector_multiple, too_few_members, Result, ok, err,
}

pub record RaidGeometry : Type 0 where
  pub level : RaidLevel
  pub layout : ParityLayout
  pub num_members : ℕ
  pub chunk_size_bytes : ℕ
  pub sector_size : ℕ
  pub data_offset_sectors : ℕ
  pub member_capacity_sectors : ℕ

unfoldable pub min_members : RaidLevel → ℕ
min_members raid0 = 2
min_members raid5 = 3
min_members raid6 = 4

unfoldable pub new : RaidLevel → ParityLayout → ℕ → ℕ → ℕ → ℕ → ℕ → Result RaidError RaidGeometry
unfolding min_members
new level layout num_members chunk_size_bytes sector_size data_offset_sectors member_capacity =
    if chunk_size_bytes == 0 || not (bit_and chunk_size_bytes (chunk_size_bytes - 1) == 0)
    then err (invalid_chunk_size chunk_size_bytes)
    else if sector_size == 0 || not (chunk_size_bytes % sector_size == 0)
    then err (not_sector_multiple chunk_size_bytes sector_size)
    else if ltb num_members (min_members level)
    then err (too_few_members (min_members level) num_members)
    else ok (record {
      level = level;
      layout = layout;
      num_members = num_members;
      chunk_size_bytes = chunk_size_bytes;
      sector_size = sector_size;
      data_offset_sectors = data_offset_sectors;
      member_capacity_sectors = member_capacity;
    })

pub record DiskBlockLocation : Type 0 where
  pub stripe_row : ℕ
  pub data_col : ℕ
  pub member_idx : ℕ
  pub member_lba : ℕ
  pub offset_in_chunk : ℕ

-- The column of a member in an asymmetric RAID 6 row: `idx` steps over both parity disks.
pub step_over : ℕ → ℕ → ℕ → ℕ
step_over p q col =
    let idx = if leb (min p q) col then col + 1 else col in
    if leb (max p q) idx then idx + 1 else idx

-- `while p < 0 { p += n }` on an `isize`, with fuel for the rounds.
pub raise_to_zero : ℕ → ℕ → ℤ → ℤ
raise_to_zero zero n p = p
raise_to_zero (suc fuel) n (pos p) = pos p
raise_to_zero (suc fuel) n (negsuc m) = raise_to_zero fuel n (sub_ℕ n (m + 1))

-- `p as usize`.
pub to_usize : ℤ → ℕ
to_usize (pos p) = p
to_usize (negsuc m) = 2 ^ 64 - 1 - m

-- The P disk of a left layout at level 6, from `raw = (stripe_row % n) as isize`; one round of the
-- loop is enough.
pub left_p_raid6 : ℕ → ℕ → ℕ
unfolding raise_to_zero to_usize
left_p_raid6 n raw = to_usize (raise_to_zero 2 n (sub_ℕ n (2 + raw))) % n

-- `parity_p_index`.
pub p_index : RaidLevel → ParityLayout → ℕ → ℕ → ℕ
unfolding left_p_raid6
p_index raid0 layout n stripe_row = 0
p_index raid5 left_symmetric n stripe_row = (n - 1 - stripe_row % n) % n
p_index raid5 left_asymmetric n stripe_row = (n - 1 - stripe_row % n) % n
p_index raid5 right_symmetric n stripe_row = stripe_row % n
p_index raid5 right_asymmetric n stripe_row = stripe_row % n
p_index raid6 left_symmetric n stripe_row = left_p_raid6 n (stripe_row % n)
p_index raid6 left_asymmetric n stripe_row = left_p_raid6 n (stripe_row % n)
p_index raid6 right_symmetric n stripe_row = stripe_row % n
p_index raid6 right_asymmetric n stripe_row = stripe_row % n

-- `map_raid5_member`, from the P disk of the row.
pub raid5_member : ParityLayout → ℕ → ℕ → ℕ → ℕ
raid5_member left_symmetric n p data_col = (p + 1 + data_col) % n
raid5_member right_symmetric n p data_col = (p + 1 + data_col) % n
raid5_member left_asymmetric n p data_col = if ltb data_col p then data_col else data_col + 1
raid5_member right_asymmetric n p data_col = if ltb data_col p then data_col else data_col + 1

-- `map_raid6_member`, from the P and Q disks of the row.
pub raid6_member : ParityLayout → ℕ → ℕ → ℕ → ℕ → ℕ
unfolding step_over
raid6_member left_symmetric n p q data_col = (q + 1 + data_col) % n
raid6_member right_symmetric n p q data_col = (q + 1 + data_col) % n
raid6_member left_asymmetric n p q data_col = step_over p q data_col % n
raid6_member right_asymmetric n p q data_col = step_over p q data_col % n

unfoldable pub data_disks : RaidLevel → ℕ → ℕ
data_disks raid0 n = n
data_disks raid5 n = n - 1
data_disks raid6 n = n - 2

module _ (g : RaidGeometry) where
  unfoldable pub chunk_size_sectors : ℕ
  chunk_size_sectors = g.chunk_size_bytes / g.sector_size

  unfoldable pub data_disks_per_stripe : ℕ
  unfolding data_disks
  data_disks_per_stripe = data_disks g.level g.num_members

  -- `saturating_sub` stops at 0.
  unfoldable pub total_logical_sectors : ℕ
  unfolding data_disks_per_stripe chunk_size_sectors
  total_logical_sectors =
      let usable = g.member_capacity_sectors - g.data_offset_sectors in
      u64 (u64 (usable / chunk_size_sectors * chunk_size_sectors) * data_disks_per_stripe)

  pub parity_p_index : ℕ → ℕ
  unfolding p_index
  parity_p_index stripe_row = p_index g.level g.layout g.num_members stripe_row

  pub parity_q_index : ℕ → ℕ
  unfolding parity_p_index
  parity_q_index stripe_row = (parity_p_index stripe_row + 1) % g.num_members

  -- The `match self.level` of `map_lba`.
  pub member_of : RaidLevel → ℕ → ℕ → ℕ
  unfolding raid5_member raid6_member parity_p_index parity_q_index
  member_of raid0 stripe_row data_col = data_col
  member_of raid5 stripe_row data_col =
      raid5_member g.layout g.num_members (parity_p_index stripe_row) data_col
  member_of raid6 stripe_row data_col =
      raid6_member g.layout g.num_members (parity_p_index stripe_row)
        ((parity_p_index stripe_row + 1) % g.num_members) data_col

  unfoldable pub map_lba : ℕ → DiskBlockLocation
  unfolding chunk_size_sectors data_disks_per_stripe member_of
  map_lba array_lba =
      let chunk_idx = array_lba / chunk_size_sectors in
      let stripe_row = chunk_idx / data_disks_per_stripe in
      let data_col = chunk_idx % data_disks_per_stripe in
      record {
        stripe_row = stripe_row;
        data_col = data_col;
        member_idx = member_of g.level stripe_row data_col;
        member_lba = u64 (
            u64 (g.data_offset_sectors + u64 (stripe_row * chunk_size_sectors))
            + array_lba % chunk_size_sectors);
        offset_in_chunk = array_lba % chunk_size_sectors;
      }
