-- ===== src/Raid/Array.antt =====
-- crates/vajra-raid/src/array.rs: an array over its member drives. A member is what its `read_blocks`
-- answers, which does not change between calls; the fingerprint that `new` derives from a digest is a
-- parameter. Loops over `0..n` run over the members, of which `new` ensures that there are `n`.
pub mod Rebuild
pub mod Degraded
pub mod Complete
use vajra_forensics_platform.Prelude.{
  ℕ, zero, suc, ◌+◌, ◌-◌, ◌*◌, min, Bool, true, false, not, ◌&&◌, ◌||◌, Option, none, some, List,
  [], ◌∷◌, ◌++◌, ltb, ◌==◌, if◌then◌else◌, length, replicate, get_or, u32, u64,
}
use vajra_forensics_platform.Raid.Error.{
  IoError, out_of_bounds, raid0_member_missing, raid5_multiple_failures, raid6_unrecoverable,
  RaidError, member_count_mismatch, insufficient_members, Result, ok, err, panic, ◌>>=◌,
}
use vajra_forensics_platform.Raid.Layout.{
  RaidLevel, raid0, raid5, raid6, RaidGeometry, DiskBlockLocation, total_logical_sectors,
  chunk_size_sectors, map_lba, parity_p_index, parity_q_index, raid6_member,
}
use vajra_forensics_platform.Raid.Galois.{
  galois, xor_into, reconstruct_with_p, reconstruct_with_q, reconstruct_2_data,
}

-- A member drive: `read_blocks(lba, count)`.
pub record Member : Type 0 where
  pub read_blocks : ℕ → ℕ → Result IoError (List ℕ)

pub record RaidArray : Type 0 where
  pub members : List (Option Member)
  pub geometry : RaidGeometry
  pub total_logical_blocks : ℕ
  pub fingerprint : ℕ

abbrev pub is_none {ℓ} : {A : Type ℓ} → Option A → Bool
is_none none = true
is_none (some a) = false

-- `members.iter().filter(|m| m.is_none()).count()`.
pub missing_count : List (Option Member) → ℕ
missing_count [] = 0
missing_count (m ∷ ms) = if is_none m then suc (missing_count ms) else missing_count ms

-- The missing members that a level tolerates.
pub tolerated : RaidLevel → ℕ
tolerated raid0 = 0
tolerated raid5 = 1
tolerated raid6 = 2

module _ (derive_fingerprint : RaidGeometry → List (Option Member) → ℕ) where
  pub new_array : RaidGeometry → List (Option Member) → Result RaidError RaidArray
  unfolding missing_count tolerated
  new_array g ms =
      if not (length ms == g.num_members)
      then err (member_count_mismatch g.num_members (length ms))
      else if ltb (tolerated g.level) (missing_count ms)
      then err (insufficient_members g.level (g.num_members - missing_count ms) g.num_members)
      else ok (record {
        members = ms;
        geometry = g;
        total_logical_blocks = total_logical_sectors g;
        fingerprint = derive_fingerprint g ms;
      })

-- `is_degraded` and `missing_member_indices`, from the index `i`.
pub is_degraded : List (Option Member) → Bool
is_degraded [] = false
is_degraded (m ∷ ms) = is_none m || is_degraded ms

pub missing_from : ℕ → List (Option Member) → List ℕ
missing_from i [] = []
missing_from i (m ∷ ms) = let rest = missing_from (i + 1) ms in if is_none m then i ∷ rest else rest

-- The place of a row on every member.
pub row_lba : RaidGeometry → DiskBlockLocation → ℕ
row_lba g loc = u64 (
    u64 (g.data_offset_sectors + u64 (loc.stripe_row * chunk_size_sectors g)) + loc.offset_in_chunk)

-- The level 5 loop of `reconstruct_block`, from the disk `disk` on.
pub xor_others :
    ℕ → DiskBlockLocation → ℕ → ℕ → List ℕ → List (Option Member) → Result IoError (List ℕ)
xor_others lba loc count disk acc [] = ok acc
xor_others lba loc count disk acc (m ∷ ms) =
    let rest = λ (out : List ℕ). xor_others lba loc count (disk + 1) out ms in
    if disk == loc.member_idx then rest acc else elim m [
      | none ↦ err (raid5_multiple_failures loc.member_lba count)
      | some drive ↦ do block ← drive.read_blocks lba count; rest (xor_into acc block)
    ]

-- The level 6 loop over a single failure: the lost disk and the Q disk are left out, and so is any
-- other that is missing.
pub xor_with_p : ℕ → ℕ → ℕ → ℕ → ℕ → List ℕ → List (Option Member) → Result IoError (List ℕ)
xor_with_p lost q_idx lba count disk acc [] = ok acc
xor_with_p lost q_idx lba count disk acc (m ∷ ms) =
    let rest = λ (out : List ℕ). xor_with_p lost q_idx lba count (disk + 1) out ms in
    if disk == lost || disk == q_idx then rest acc else elim m [
      | none ↦ rest acc
      | some drive ↦ do block ← drive.read_blocks lba count; rest (xor_into acc block)
    ]

-- `surviving_blocks`: what every drive that is left answers, with its index.
pub read_surviving : ℕ → ℕ → ℕ → List (Option Member) → Result IoError (List (ℕ × List ℕ))
read_surviving lba count disk [] = ok []
read_surviving lba count disk (m ∷ ms) =
    let rest = read_surviving lba count (disk + 1) ms in
    elim m [
      | none ↦ rest
      | some drive ↦ do
        block ← drive.read_blocks lba count
        blocks ← rest
        ok ((disk, block) ∷ blocks)
    ]

-- `surviving_blocks.iter().find(|(i, _)| *i == idx)`.
pub find_block : ℕ → List (ℕ × List ℕ) → Option (List ℕ)
find_block idx [] = none
find_block idx ((i, block) ∷ blocks) = if i == idx then some block else find_block idx blocks

-- `data_disk_indices`, each with its column, from the column `col`, with `left` columns to go.
pub data_columns : RaidGeometry → ℕ → ℕ → ℕ → ℕ → List (ℕ × ℕ)
data_columns g p_idx q_idx zero col = []
data_columns g p_idx q_idx (suc left) col =
    (col, raid6_member g.layout g.num_members p_idx q_idx col)
    ∷ data_columns g p_idx q_idx left (col + 1)

-- `intact_data`: the columns on drives other than `lost` that are left. The `unwrap` of `find` does
-- not fail on such a drive; `none` would be its panic.
pub intact_data :
    List (Option Member) → Option ℕ → List (ℕ × List ℕ) → List (ℕ × ℕ) → Option (List (ℕ × List ℕ))
unfolding find_block
intact_data ms lost blocks [] = some []
intact_data ms lost blocks ((col, disk) ∷ cols) =
    let rest = intact_data ms lost blocks cols in
    if elim lost [ none ↦ false | some l ↦ disk == l ] || is_none (get_or ms disk none)
    then rest
    else elim (find_block disk blocks) [
      | none ↦ none
      | some block ↦ elim rest [ none ↦ none | some kept ↦ some ((col, block) ∷ kept) ]
    ]

-- `missing_data_cols`.
pub missing_columns : List (Option Member) → List (ℕ × ℕ) → List ℕ
missing_columns ms [] = []
missing_columns ms ((col, disk) ∷ cols) =
    let rest = missing_columns ms cols in if is_none (get_or ms disk none) then col ∷ rest else rest

abbrev pub contains : List ℕ → ℕ → Bool
contains [] a = false
contains (x ∷ xs) a = x == a || contains xs a

abbrev pub or_panic {ℓ} : {A : Type ℓ} → Option A → Result IoError A
or_panic none = panic
or_panic (some a) = ok a

-- P is lost and Q is left.
pub recover_from_q :
    List (Option Member)
    → DiskBlockLocation
    → ℕ
    → ℕ
    → List (ℕ × List ℕ)
    → List (ℕ × ℕ)
    → Result IoError (List ℕ)
unfolding intact_data find_block
recover_from_q ms loc block_bytes q_idx blocks cols = do
  intact ← or_panic (intact_data ms (some loc.member_idx) blocks cols)
  q_block ← or_panic (find_block q_idx blocks)
  ok (reconstruct_with_q galois intact q_block loc.data_col (replicate block_bytes 0))

-- Q is lost and P is left; `copy_from_slice` panics on a block of another length.
pub recover_from_p :
    List (Option Member)
    → DiskBlockLocation
    → ℕ
    → ℕ
    → List (ℕ × List ℕ)
    → List (ℕ × ℕ)
    → Result IoError (List ℕ)
unfolding intact_data find_block
recover_from_p ms loc block_bytes p_idx blocks cols = do
  intact ← or_panic (intact_data ms (some loc.member_idx) blocks cols)
  p_block ← or_panic (find_block p_idx blocks)
  if length p_block == block_bytes then ok (reconstruct_with_p intact p_block) else panic

-- P and Q are left and two data disks are lost.
pub recover_pair :
    List (Option Member)
    → DiskBlockLocation
    → ℕ
    → ℕ
    → ℕ
    → List (ℕ × List ℕ)
    → List (ℕ × ℕ)
    → ℕ
    → ℕ
    → Result IoError (List ℕ)
unfolding intact_data find_block
recover_pair ms loc block_bytes p_idx q_idx blocks cols col_x col_y = do
  intact ← or_panic (intact_data ms none blocks cols)
  p_block ← or_panic (find_block p_idx blocks)
  q_block ← or_panic (find_block q_idx blocks)
  outs ← or_panic (
      reconstruct_2_data galois intact p_block q_block col_x col_y (replicate block_bytes 0)
        (replicate block_bytes 0))
  ok (if loc.data_col == col_x then outs.0 else outs.1)

pub recover_missing : RaidArray → DiskBlockLocation → ℕ → ℕ → ℕ → List ℕ → Result IoError (List ℕ)
unfolding read_surviving data_columns missing_columns recover_from_q recover_from_p recover_pair
    row_lba
recover_missing a loc count p_idx q_idx missing = do
  let block_bytes = u32 (count * a.geometry.sector_size)
  let cols = data_columns a.geometry p_idx q_idx (a.geometry.num_members - 2) 0
  blocks ← read_surviving (row_lba a.geometry loc) count 0 a.members
  if contains missing p_idx && not (contains missing q_idx)
      then recover_from_q a.members loc block_bytes q_idx blocks cols
      else if not (contains missing p_idx) && contains missing q_idx
      then recover_from_p a.members loc block_bytes p_idx blocks cols
      else if contains missing p_idx && contains missing q_idx
      then err (raid6_unrecoverable loc.member_lba count)
      else elim (missing_columns a.members cols) [
        | col_x ∷ col_y ∷ [] ↦
            recover_pair a.members loc block_bytes p_idx q_idx blocks cols col_x col_y
        | _ ↦ err (raid6_unrecoverable loc.member_lba count)
      ]

pub reconstruct_raid6_block : RaidArray → DiskBlockLocation → ℕ → Result IoError (List ℕ)
unfolding xor_with_p recover_missing missing_from row_lba
reconstruct_raid6_block a loc count =
    let p_idx = parity_p_index a.geometry loc.stripe_row in
    let q_idx = parity_q_index a.geometry loc.stripe_row in
    let slow = recover_missing a loc count p_idx q_idx (missing_from 0 a.members) in
    elim (missing_from 0 a.members) [
      | lost ∷ [] ↦
          if not (lost == p_idx) && not (is_none (get_or a.members p_idx none))
          then xor_with_p loc.member_idx q_idx (row_lba a.geometry loc) count 0
              (replicate (u32 (count * a.geometry.sector_size)) 0) a.members
          else slow
      | _ ↦ slow
    ]

-- The `match self.geometry.level` of `reconstruct_block`.
pub reconstruct_level : RaidLevel → RaidArray → DiskBlockLocation → ℕ → Result IoError (List ℕ)
unfolding xor_others reconstruct_raid6_block row_lba
reconstruct_level raid0 a loc count = err (raid0_member_missing loc.member_lba count)
reconstruct_level raid5 a loc count =
    xor_others (row_lba a.geometry loc) loc count 0
      (replicate (u32 (count * a.geometry.sector_size)) 0) a.members
reconstruct_level raid6 a loc count = reconstruct_raid6_block a loc count

pub reconstruct_block : RaidArray → DiskBlockLocation → ℕ → Result IoError (List ℕ)
unfolding reconstruct_level
reconstruct_block a loc count = reconstruct_level a.geometry.level a loc count

-- The sectors of one round of `read_blocks`: up to the end of the chunk.
pub take_sectors : RaidArray → DiskBlockLocation → ℕ → ℕ
take_sectors a loc remaining =
    min remaining (u32 (chunk_size_sectors a.geometry - loc.offset_in_chunk))

pub read_chunk : RaidArray → DiskBlockLocation → ℕ → Result IoError (List ℕ)
unfolding reconstruct_block
read_chunk a loc count = elim (get_or a.members loc.member_idx none) [
  | none ↦ reconstruct_block a loc count
  | some drive ↦ drive.read_blocks loc.member_lba count
]

-- `while remaining > 0`, with fuel for the rounds; a run out of fuel is a `panic`.
pub read_loop : ℕ → RaidArray → ℕ → ℕ → List ℕ → Result IoError (List ℕ)
unfolding read_chunk take_sectors
read_loop zero a cur_lba remaining result = if remaining == 0 then ok result else panic
read_loop (suc fuel) a cur_lba remaining result =
    let loc = map_lba a.geometry cur_lba in
    let count = take_sectors a loc remaining in
    let round : Result IoError (List ℕ) = read_chunk a loc count >>= λ chunk_data.
    read_loop fuel a (u64 (cur_lba + count)) (remaining - count) (result ++ chunk_data) in
    if remaining == 0 then ok result else round

-- Every round reads a sector at least, so `count` rounds are enough.
pub read_blocks : RaidArray → ℕ → ℕ → Result IoError (List ℕ)
unfolding read_loop
read_blocks a start_lba count =
    if ltb a.total_logical_blocks (u64 (start_lba + count))
    then err (out_of_bounds start_lba count a.total_logical_blocks)
    else read_loop count a start_lba count []
