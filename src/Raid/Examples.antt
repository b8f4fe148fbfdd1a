-- ===== src/Raid/Examples.antt =====
-- Concrete arrays and stripes on which the theorems of this folder apply.
use vajra_forensics_platform.Prelude.{
  ℕ, zero, suc, ◌*◌, ◌<◌, ◌≡◌, ◌≢◌, refl, ap, sym, ◌∙◌, none, some, List, [], ◌∷◌, length-replicate,
  replicate, bit_xor, arith,
}
use vajra_forensics_platform.Raid.Error.{ok}
use vajra_forensics_platform.Raid.Layout.{
  raid5, raid6, left_symmetric, RaidGeometry, new, map_lba, total_logical_sectors,
  data_disks_per_stripe, data_disks, min_members, chunk_size_sectors, member_of, parity_p_index,
  parity_q_index,
}
use vajra_forensics_platform.Raid.Layout.Mapping.{
  IsValid, map_lba_bounds, map_lba_injective, member_of-ne-parity,
}
use vajra_forensics_platform.Raid.Galois.{
  galois, xor_into, xor_all, reconstruct_with_q, reconstruct_2_data, compute_p_parity,
  compute_q_parity,
}
use vajra_forensics_platform.Raid.Galois.Recovery.{
  IsBytes, all_but_one, reconstruct_with_q-compute_q_parity,
}
use vajra_forensics_platform.Raid.Galois.Pairs.{all_but_two, reconstruct_2_data_lem}
use vajra_forensics_platform.Raid.Array.{Member, RaidArray, read_blocks}
use vajra_forensics_platform.Raid.Array.Rebuild.{ParityAt}
use vajra_forensics_platform.Raid.Array.Degraded.{
  around, IsRaid5, whole, degraded, read_blocks_degraded,
}
use vajra_forensics_platform.Raid.Array.Complete.{Returns, read_blocks-Returns}

-- Three columns of two bytes.
abbrev first_block : List ℕ
first_block = 17 ∷ 200 ∷ []

abbrev lost_block : List ℕ
lost_block = 3 ∷ 255 ∷ []

abbrev other_block : List ℕ
other_block = 90 ∷ 1 ∷ []

abbrev buffer : List ℕ
buffer = 0 ∷ 0 ∷ []

lost-IsBytes : IsBytes lost_block
lost-IsBytes = (omega arith, (omega arith, tt))

other-IsBytes : IsBytes other_block
other-IsBytes = (omega arith, (omega arith, tt))

reconstruct_with_q-compute_q_parity_example :
    reconstruct_with_q galois
      (all_but_one (first_block ∷ []) (other_block ∷ []))
      (compute_q_parity galois (first_block ∷ lost_block ∷ other_block ∷ []) buffer)
      1
      buffer
    ≡ lost_block
reconstruct_with_q-compute_q_parity_example =
    reconstruct_with_q-compute_q_parity (first_block ∷ []) (other_block ∷ []) lost_block buffer
      buffer lost-IsBytes refl refl

reconstruct_2_data_lem_example :
    reconstruct_2_data galois
      (all_but_two (first_block ∷ []) [] [])
      (compute_p_parity (first_block ∷ lost_block ∷ other_block ∷ []) buffer)
      (compute_q_parity galois (first_block ∷ lost_block ∷ other_block ∷ []) buffer)
      1
      2
      buffer
      buffer
    ≡ some (lost_block, other_block)
reconstruct_2_data_lem_example =
    reconstruct_2_data_lem (first_block ∷ []) [] [] lost_block other_block buffer buffer buffer
      buffer (omega arith) lost-IsBytes other-IsBytes refl refl refl refl refl

-- Three drives, chunks of two sectors of two bytes, eight sectors to a drive.
abbrev geometry : RaidGeometry
geometry = record {
  level = raid5;
  layout = left_symmetric;
  num_members = 3;
  chunk_size_bytes = 4;
  sector_size = 2;
  data_offset_sectors = 0;
  member_capacity_sectors = 8;
}

geometry_made : new raid5 left_symmetric 3 4 2 0 8 ≡ ok geometry
unfolding new
geometry_made = refl

geometry-IsValid : IsValid geometry
unfolding min_members
geometry-IsValid = record {
  enough = omega arith;
  chunk_pos = omega arith;
  sector_pos = omega arith;
  aligned = refl;
}

total_16 : total_logical_sectors geometry ≡ 16
unfolding total_logical_sectors
total_16 = refl

map_lba_injective_example : ◌≡◌ {A = ℕ} 5 5
map_lba_injective_example =
    map_lba_injective geometry geometry-IsValid 5 5 (omega arith) (omega (arith, total_16))
      (omega (arith, total_16)) refl refl

map_lba_bounds_example :
    ((map_lba geometry 5).member_idx < 3)
    × ((map_lba geometry 5).member_lba < 8)
    × ((map_lba geometry 5).data_col < data_disks_per_stripe geometry)
    × ((map_lba geometry 5).offset_in_chunk < chunk_size_sectors geometry)
map_lba_bounds_example =
    map_lba_bounds geometry geometry-IsValid 5 (omega arith) (omega (arith, total_16))

member_of-ne-parity_example :
    (member_of geometry raid5 4 1 ≢ parity_p_index geometry 4)
    × (raid5 ≡ raid6 → member_of geometry raid5 4 1 ≢ parity_q_index geometry 4)
unfolding data_disks
member_of-ne-parity_example =
    member_of-ne-parity geometry geometry-IsValid raid5 4 1 (λ e. absurd (ground (arith, e)))
      (omega arith)

-- Drives that answer every read with one byte over and over; 5, 6 and 3 have parity zero.
abbrev constant_drive : ℕ → Member
constant_drive b = record { read_blocks = λ lba count. ok (replicate (count * 2) b) }

xor_into-replicate :
    (n a b : ℕ) → xor_into (replicate n a) (replicate n b) ≡ replicate n (bit_xor a b)
unfolding xor_into
xor_into-replicate zero a b = refl
xor_into-replicate (suc n) a b = ap (λ xs. bit_xor a b ∷ xs) (xor_into-replicate n a b)

drives_in_parity :
    (lba count : ℕ)
    → ParityAt
        (count * 2)
        (constant_drive 5 ∷ [])
        (constant_drive 6)
        (constant_drive 3 ∷ [])
        lba
        count
unfolding xor_all
drives_in_parity lba count =
    let n : ℕ = count * 2 in
    record {
      before = replicate n 5 ∷ [];
      own = replicate n 6;
      after = replicate n 3 ∷ [];
      before_answers = (refl, length-replicate n 5, tt);
      own_answer = refl;
      own_length = length-replicate n 6;
      after_answers = (refl, length-replicate n 3, tt);
      parity =
          ap (λ x. xor_into (xor_into x (replicate n 6)) (replicate n 3)) (xor_into-replicate n 0 5)
          ∙ ap (λ x. xor_into x (replicate n 3)) (xor_into-replicate n 5 6)
          ∙ xor_into-replicate n 3 3;
    }

abbrev array : RaidArray
array = record {
  members = some (constant_drive 5) ∷ none ∷ some (constant_drive 3) ∷ [];
  geometry = geometry;
  total_logical_blocks = 16;
  fingerprint = 0;
}

array_in_parity : IsRaid5 array (constant_drive 5 ∷ []) (constant_drive 6) (constant_drive 3 ∷ [])
array_in_parity = record {
  valid = geometry-IsValid;
  level5 = refl;
  members_length = refl;
  total = sym total_16;
  capacity_fits = omega arith;
  chunk_fits = omega arith;
  in_parity = λ lba count fits small. drives_in_parity lba count;
}

read_blocks_degraded_example :
    read_blocks
      (degraded array
        (constant_drive 5 ∷ [])
        (constant_drive 6)
        (constant_drive 3 ∷ [])
        array_in_parity)
      1
      9
    ≡ read_blocks
        (whole array
          (constant_drive 5 ∷ [])
          (constant_drive 6)
          (constant_drive 3 ∷ [])
          array_in_parity)
        1
        9
read_blocks_degraded_example =
    read_blocks_degraded array (constant_drive 5 ∷ []) (constant_drive 6) (constant_drive 3 ∷ [])
      array_in_parity 1 9 (omega arith)

read_blocks-Returns_example :
    Returns array.geometry
      (around (constant_drive 5 ∷ []) (some (constant_drive 6)) (constant_drive 3 ∷ []))
      (read_blocks
        (degraded array
          (constant_drive 5 ∷ [])
          (constant_drive 6)
          (constant_drive 3 ∷ [])
          array_in_parity)
        1
        9)
      1
      9
read_blocks-Returns_example =
    read_blocks-Returns array (constant_drive 5 ∷ []) (constant_drive 6) (constant_drive 3 ∷ [])
      array_in_parity 1 9 (omega arith)
