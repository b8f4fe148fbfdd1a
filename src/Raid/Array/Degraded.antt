-- ===== src/Raid/Array/Degraded.antt =====
-- `read_blocks` of array.rs at level 5: the array with a drive lost beside the whole one.
use native.Mathlib.Nat.{div-mul-le_self, div-le_self, mul-le-mul_right}
use native.Mathlib.Decide.{ℕ_discrete}
use mathlib.Core.Path.{fun_ext}
use vajra_forensics_platform.Prelude.{
  ℕ, zero, suc, ◌+◌, ◌-◌, ◌*◌, ◌<◌, ◌≤◌, ◌^◌, ◌≡◌, ◌≢◌, refl, sym, ap, ap₂, ◌∙◌, Bool-cases, inl,
  inr, Option, none, some, List, [], ◌∷◌, ◌++◌, map, arith, length, get_or, u64, ◌==◌, ltb,
}
use vajra_forensics_platform.Raid.Error.{◌>>=◌}
use vajra_forensics_platform.Raid.Layout.{
  raid5, DiskBlockLocation, map_lba, chunk_size_sectors, total_logical_sectors,
}
use vajra_forensics_platform.Raid.Layout.Mapping.{
  IsValid, map_lba_place, map_lba_bounds, total_logical_sectors-lt,
}
use vajra_forensics_platform.Raid.Array.{
  Member, RaidArray, row_lba, reconstruct_level, reconstruct_block, take_sectors, read_chunk,
  read_loop, read_blocks,
}
use vajra_forensics_platform.Raid.Array.Rebuild.{ParityAt, reconstruct_raid5}

-- The members around one place.
abbrev pub around : List Member → Option Member → List Member → List (Option Member)
around pre here post = map some pre ++ here ∷ map some post

get_or-around :
    (pre : List Member) (here : Option Member) (post : List Member)
    → get_or (around pre here post) (length pre) none ≡ here
get_or-around [] here post = refl
get_or-around (m ∷ pre) here post = get_or-around pre here post

drive_at :
    (post : List Member) (i : ℕ)
    → i < length post
    → (m : Member) × (get_or (map some post) i none ≡ some m)
drive_at [] i h = absurd (omega arith)
drive_at (m ∷ post) zero h = (m, refl)
drive_at (m ∷ post) (suc i) h = drive_at post i (omega arith)

-- At any other place there is the same drive, whatever stands in the middle.
other_drive :
    (pre : List Member) (post : List Member) (i : ℕ)
    → i ≢ length pre
    → i < length pre + 1 + length post
    → (m : Member) × ((here : Option Member) → get_or (around pre here post) i none ≡ some m)
other_drive [] post zero ne h = absurd (ne refl)
other_drive [] post (suc i) ne h = let d = drive_at post i (omega arith) in (d.0, λ _. d.1)
other_drive (m ∷ pre) post zero ne h = (m, λ _. refl)
other_drive (m ∷ pre) post (suc i) ne h = other_drive pre post i (λ e. ne (ap suc e)) (omega arith)

pub read_chunk-some :
    (a : RaidArray) (loc : DiskBlockLocation) (count : ℕ) {m : Member}
    → get_or a.members loc.member_idx none ≡ some m
    → read_chunk a loc count ≡ m.read_blocks loc.member_lba count
unfolding read_chunk
read_chunk-some a loc count e = rw (e, read_chunk)

read_chunk-none :
    (a : RaidArray) (loc : DiskBlockLocation) (count : ℕ)
    → get_or a.members loc.member_idx none ≡ none
    → read_chunk a loc count ≡ reconstruct_level a.geometry.level a loc count
unfolding read_chunk reconstruct_block
read_chunk-none a loc count e = rw (e, read_chunk)

-- An array of level 5 over the drives `pre`, `lost` and `post`, whose rows have zero parity.
pub record IsRaid5 (a : RaidArray) (pre : List Member) (lost : Member) (post : List Member)
    : Type 0 where
  pub valid : IsValid a.geometry
  pub level5 : a.geometry.level ≡ raid5
  pub members_length : length pre + 1 + length post ≡ a.geometry.num_members
  pub total : a.total_logical_blocks ≡ total_logical_sectors a.geometry
  pub capacity_fits : a.geometry.member_capacity_sectors < 2 ^ 64
  pub chunk_fits : a.geometry.chunk_size_bytes < 2 ^ 32
  pub in_parity :
      (lba count : ℕ)
      → lba + count ≤ a.geometry.member_capacity_sectors
      → count ≤ chunk_size_sectors a.geometry
      → ParityAt (count * a.geometry.sector_size) pre lost post lba count

module _ (a : RaidArray) (pre : List Member) (lost : Member) (post : List Member)
    (r : IsRaid5 a pre lost post) where
  abbrev pub whole : RaidArray
  whole = record a { members = around pre (some lost) post }

  abbrev pub degraded : RaidArray
  degraded = record a { members = around pre none post }

  pub chunk-fits : chunk_size_sectors a.geometry < 2 ^ 32
  unfolding chunk_size_sectors
  chunk-fits =
      omega (arith, div-le_self a.geometry.chunk_size_bytes a.geometry.sector_size, r.chunk_fits)

  count-fits :
      (count : ℕ) → count ≤ chunk_size_sectors a.geometry → count * a.geometry.sector_size < 2 ^ 32
  unfolding chunk_size_sectors
  count-fits count h = omega (
    arith,
    mul-le-mul_right a.geometry.sector_size h,
    div-mul-le_self a.geometry.chunk_size_bytes a.geometry.sector_size,
    r.chunk_fits,
  )

  pub row_lba-map_lba :
      (cur : ℕ) → (map_lba a.geometry cur).member_lba ≡ row_lba a.geometry (map_lba a.geometry cur)
  unfolding map_lba row_lba
  row_lba-map_lba cur = refl

  -- One round reads the same on both arrays.
  read_chunk_same :
      (cur count : ℕ)
      → cur < total_logical_sectors a.geometry
      → count ≤ chunk_size_sectors a.geometry - (map_lba a.geometry cur).offset_in_chunk
      → read_chunk whole (map_lba a.geometry cur) count
        ≡ read_chunk degraded (map_lba a.geometry cur) count
  read_chunk_same cur count h k =
      let loc : DiskBlockLocation = map_lba a.geometry cur in
      let place = map_lba_place a.geometry r.valid cur r.capacity_fits h in
      let bounds = map_lba_bounds a.geometry r.valid cur r.capacity_fits h in
      let at = row_lba-map_lba cur in
      let small : count ≤ chunk_size_sectors a.geometry = omega arith in
      let p = r.in_parity (row_lba a.geometry loc) count (omega arith) small in
      elim (ℕ_discrete loc.member_idx (length pre)) [
        | yes e ↦
            read_chunk-some whole loc count (
              ap (λ i. get_or (around pre (some lost) post) i none) e
              ∙ get_or-around pre (some lost) post)
            ∙ ap (λ lba. lost.read_blocks lba count) at
            ∙ p.own_answer
            ∙ sym (
                read_chunk-none degraded loc count
                  (ap (λ i. get_or (around pre none post) i none) e ∙ get_or-around pre none post)
                ∙ ap (λ level. reconstruct_level level degraded loc count) r.level5
                ∙ reconstruct_raid5 degraded loc count pre lost post refl e (count-fits count small)
                    p)
        | no ne ↦
            let (drive, there) =
              other_drive pre post loc.member_idx ne (omega (arith, r.members_length)) in
            read_chunk-some whole loc count (there (some lost))
            ∙ sym (read_chunk-some degraded loc count (there none))
      ]

  -- The next round stays inside the array.
  pub next_round :
      (cur remaining : ℕ)
      → cur + remaining ≤ total_logical_sectors a.geometry
      → u64 (cur + take_sectors whole (map_lba a.geometry cur) remaining)
          + (remaining - take_sectors whole (map_lba a.geometry cur) remaining)
        ≤ total_logical_sectors a.geometry
  unfolding take_sectors
  next_round cur remaining h = omega (arith, total_logical_sectors-lt a.geometry)

  read_loop_same :
      (fuel cur remaining : ℕ) (result : List ℕ)
      → cur + remaining ≤ total_logical_sectors a.geometry
      → read_loop fuel whole cur remaining result ≡ read_loop fuel degraded cur remaining result
  unfolding read_loop take_sectors
  read_loop_same zero cur remaining result h = refl
  read_loop_same (suc fuel) cur remaining result h = elim (Bool-cases (remaining == 0)) [
    | inl done ↦ rw done
    | inr more ↦ rw more (
        ap₂ ◌>>=◌
          (read_chunk_same cur (take_sectors whole (map_lba a.geometry cur) remaining)
            (ground arith) (omega arith))
          (fun_ext λ bytes. read_loop_same fuel _ _ (result ++ bytes) (next_round cur remaining h)))
  ]

  -- A level 5 array with one drive lost answers every read as the whole array does, in data or in
  -- error, when the drives answer reads inside their capacity with rows whose parity is zero, a
  -- chunk is shorter than 2 ^ 32 bytes, and the block numbers of the read fit in 64 bits.
  pub read_blocks_degraded :
      (start count : ℕ)
      → start + count < 2 ^ 64
      → read_blocks degraded start count ≡ read_blocks whole start count
  unfolding read_blocks
  read_blocks_degraded start count h =
      elim (Bool-cases (ltb a.total_logical_blocks (u64 (start + count)))) [
        | inl over ↦ rw over
        | inr inside ↦
            rw inside (sym (read_loop_same count start count [] (ground (arith, r.total, inside))))
      ]
