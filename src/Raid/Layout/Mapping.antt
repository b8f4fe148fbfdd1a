-- ===== src/Raid/Layout/Mapping.antt =====
-- `RaidGeometry::new` and `map_lba` of layout.rs, on geometries that `new` accepts.
use native.Mathlib.Nat.{div-add-mod, mod-lt}
use vajra_forensics_platform.Prelude.{
  ℕ, zero, suc, ◌+◌, ◌-◌, ◌*◌, ◌/◌, ◌%◌, ◌^◌, ◌≤◌, ◌<◌, ◌≡◌, refl, ◌≢◌, ap, ◌∙◌, sym, arith,
}
use vajra_forensics_platform.Raid.Error.{ok}
use vajra_forensics_platform.Raid.Layout.{
  RaidLevel, raid0, raid5, raid6, ParityLayout, RaidGeometry, new, min_members, data_disks,
  chunk_size_sectors, data_disks_per_stripe, total_logical_sectors, parity_p_index, parity_q_index,
  member_of, map_lba,
}
use vajra_forensics_platform.Raid.Layout.Places.{
  below_capacity, place_injective, coordinates_injective,
}
use vajra_forensics_platform.Raid.Layout.Rows.{
  p_index-lt, raid5_member_lem, raid5_member_injective, raid6_member_lem, raid6_member_injective,
  data_disks-pos, two-le-members,
}

-- What `new` accepts.
pub record IsValid (g : RaidGeometry) : Type 0 where
  pub enough : min_members g.level ≤ g.num_members
  pub chunk_pos : 0 < g.chunk_size_bytes
  pub sector_pos : 0 < g.sector_size
  pub aligned : g.chunk_size_bytes % g.sector_size ≡ 0

-- A geometry that the constructor returns has members enough for its level, chunks and sectors
-- that are not empty, and chunks of whole sectors.
new-IsValid :
    (level : RaidLevel) (layout : ParityLayout) (n chunk sector offset capacity : ℕ)
    {g : RaidGeometry}
    → new level layout n chunk sector offset capacity ≡ ok g
    → IsValid g
unfolding new
new-IsValid level layout n chunk sector offset capacity e = ground arith

pub total_logical_sectors-lt : (g : RaidGeometry) → total_logical_sectors g < 2 ^ 64
unfolding total_logical_sectors
total_logical_sectors-lt g = omega arith

module _ (g : RaidGeometry) (v : IsValid g) where
  pub chunk-pos : 0 < chunk_size_sectors g
  unfolding chunk_size_sectors
  chunk-pos =
      nonzero (g.chunk_size_bytes / g.sector_size) (div-add-mod g.chunk_size_bytes g.sector_size)
    where
      nonzero :
          (c : ℕ)
          → g.sector_size * c + g.chunk_size_bytes % g.sector_size ≡ g.chunk_size_bytes
          → 0 < c
      nonzero zero e = absurd (omega (arith, v.chunk_pos, v.aligned))
      nonzero (suc c) e = omega arith

  disks-pos : 0 < data_disks_per_stripe g
  unfolding data_disks_per_stripe
  disks-pos = data_disks-pos g.level g.num_members v.enough

  p-lt : (row : ℕ) → parity_p_index g row < g.num_members
  unfolding parity_p_index
  p-lt row =
      p_index-lt g.level g.layout g.num_members row (two-le-members g.level g.num_members v.enough)

  member_of-lt_level :
      (level : RaidLevel) (row col : ℕ)
      → col < data_disks level g.num_members
      → member_of g level row col < g.num_members
  unfolding member_of data_disks
  member_of-lt_level raid0 row col h = h
  member_of-lt_level raid5 row col h =
      (raid5_member_lem g.layout g.num_members (parity_p_index g row) col (p-lt row) h).0
  member_of-lt_level raid6 row col h =
      (raid6_member_lem g.layout g.num_members (parity_p_index g row)
        ((parity_p_index g row + 1) % g.num_members) col (p-lt row) refl h).0

  member_of_injective :
      (level : RaidLevel) (row c d : ℕ)
      → c < data_disks level g.num_members
      → d < data_disks level g.num_members
      → member_of g level row c ≡ member_of g level row d
      → c ≡ d
  unfolding member_of data_disks
  member_of_injective raid0 row c d h k e = e
  member_of_injective raid5 row c d h k e =
      raid5_member_injective g.layout g.num_members (parity_p_index g row) c d (p-lt row) h k e
  member_of_injective raid6 row c d h k e =
      raid6_member_injective g.layout g.num_members (parity_p_index g row)
        ((parity_p_index g row + 1) % g.num_members) c d (p-lt row) refl h k e

  -- No data column of a row lies on the P disk of the row, nor at level 6 on its Q disk, in a
  -- valid array of level 5 or 6.
  pub member_of-ne-parity :
      (level : RaidLevel) (row col : ℕ)
      → level ≢ raid0
      → col < data_disks level g.num_members
      → (member_of g level row col ≢ parity_p_index g row)
        × (level ≡ raid6 → member_of g level row col ≢ parity_q_index g row)
  unfolding member_of data_disks parity_q_index
  member_of-ne-parity raid0 row col s h = absurd (s refl)
  member_of-ne-parity raid5 row col s h =
      ((raid5_member_lem g.layout g.num_members (parity_p_index g row) col (p-lt row) h).1, λ e. cc)
  member_of-ne-parity raid6 row col s h =
      let facts =
        raid6_member_lem g.layout g.num_members (parity_p_index g row)
          ((parity_p_index g row + 1) % g.num_members) col (p-lt row) refl h in
      (facts.1, λ e. facts.2)

  -- Inside the array nothing wraps: the place on the member is the offset, the row and the rest, and
  -- the member holds the chunk to its end.
  pub map_lba_place :
      (a : ℕ)
      → g.member_capacity_sectors < 2 ^ 64
      → a < total_logical_sectors g
      → let loc = map_lba g a in
        (loc.member_lba
          ≡ g.data_offset_sectors + loc.stripe_row * chunk_size_sectors g + loc.offset_in_chunk)
        × (loc.member_lba + (chunk_size_sectors g - loc.offset_in_chunk)
            ≤ g.member_capacity_sectors)
        × (loc.offset_in_chunk < chunk_size_sectors g)
  unfolding map_lba total_logical_sectors
  map_lba_place a fits h =
      let inside =
        below_capacity a (chunk_size_sectors g) (data_disks_per_stripe g) g.member_capacity_sectors
          g.data_offset_sectors chunk-pos disks-pos h in
      let rest : a % chunk_size_sectors g < chunk_size_sectors g = mod-lt a chunk-pos in
      (omega arith, omega arith, rest)

  -- A sector inside a valid array goes to a member that exists, inside its capacity, in a data
  -- column of its row and inside a chunk, when the capacity of a member fits in 64 bits.
  pub map_lba_bounds :
      (a : ℕ)
      → g.member_capacity_sectors < 2 ^ 64
      → a < total_logical_sectors g
      → let loc = map_lba g a in
        (loc.member_idx < g.num_members)
        × (loc.member_lba < g.member_capacity_sectors)
        × (loc.data_col < data_disks_per_stripe g)
        × (loc.offset_in_chunk < chunk_size_sectors g)
  unfolding map_lba
  map_lba_bounds a fits h =
      let c : ℕ = chunk_size_sectors g in
      let k : ℕ = data_disks_per_stripe g in
      let col : a / c % k < k = mod-lt (a / c) disks-pos in
      (
        member_of-lt_level g.level (a / c / k) (a / c % k) col,
        omega (arith, (map_lba_place a fits h).1, mod-lt a chunk-pos),
        col,
        mod-lt a chunk-pos,
      )

  -- Two sectors inside a valid array never share a place on a member, when the capacity of a
  -- member fits in 64 bits.
  pub map_lba_injective :
      (a b : ℕ)
      → g.member_capacity_sectors < 2 ^ 64
      → a < total_logical_sectors g
      → b < total_logical_sectors g
      → (map_lba g a).member_idx ≡ (map_lba g b).member_idx
      → (map_lba g a).member_lba ≡ (map_lba g b).member_lba
      → a ≡ b
  unfolding map_lba
  map_lba_injective a b fits h l same_member same_lba =
      let c : ℕ = chunk_size_sectors g in
      let k : ℕ = data_disks_per_stripe g in
      let places =
        place_injective (a / c / k) (b / c / k) (a % c) (b % c) c (mod-lt a chunk-pos)
          (mod-lt b chunk-pos)
          (omega (arith, (map_lba_place a fits h).0, (map_lba_place b fits l).0)) in
      coordinates_injective a b c k places.0
        (member_of_injective g.level (a / c / k) (a / c % k) (b / c % k) (mod-lt (a / c) disks-pos)
          (mod-lt (b / c) disks-pos)
          (same_member ∙ ap (λ r. member_of g g.level r (b / c % k)) (sym places.0)))
        places.1
