-- ===== src/Erase/Overwrite.antt =====
-- crates/vajra-erase/src/methods/overwrite.rs: one pass over all blocks of a device. The token that
-- the source asks for is not used by it, and left out.
pub mod Covers
use vajra_forensics_platform.Prelude.{
  ℕ, zero, suc, ◌+◌, ◌-◌, ◌*◌, min, Option, none, some, List, [], ◌∷◌, ◌++◌, ltb, if◌then◌else◌,
  replicate, String, Result, ok, err, panic, returned,
}
use vajra_forensics_platform.Raid.Error.{IoError}
use vajra_forensics_platform.Erase.Gate.{GateError}
use vajra_forensics_platform.Erase.Decision.{SanitizeMethod}

pub data EraseError : Type 0 where
  gate : GateError → EraseError
  io : IoError → EraseError
  hardware_command_failed : String → Option ℕ → EraseError
  verification_failed : String → EraseError
  device_disconnected : EraseError
  cancelled : EraseError

pub data OverwritePattern : Type 0 where
  zeros : OverwritePattern
  ones : OverwritePattern
  random : OverwritePattern

-- `WritableBlockSource`. What a write that is refused leaves on the device is not told.
pub record Target (Device : Type 0) : Type 0 where
  pub total_blocks : ℕ
  pub block_size : ℕ
  pub write_blocks : Device → ℕ → List ℕ → Result IoError Device
  pub issue_sanitize : Device → SanitizeMethod → Result IoError Device

-- A call of `progress`: the pass, the number of passes, and the blocks done and in all.
pub record Progress : Type 0 where
  pub pass_number : ℕ
  pub total_passes : ℕ
  pub blocks_done : ℕ
  pub blocks_total : ℕ

-- The device after a write, with its error passed on by `?`.
abbrev pub from_io {ℓ} : {A : Type ℓ} → Result IoError A → Result EraseError A
from_io (ok a) = ok a
from_io (err e) = err (io e)
from_io panic = panic

-- The generator: `fill_bytes` gives bytes and the next state.
module _ {Device Rng : Type 0} (t : Target Device) (fill_bytes : Rng → ℕ → List ℕ × Rng) where
  pub fill : OverwritePattern → Rng → ℕ → List ℕ × Rng
  fill zeros rng n = (replicate n 0, rng)
  fill ones rng n = (replicate n 255, rng)
  fill random rng n = fill_bytes rng n

  abbrev pub chunk_blocks : ℕ
  chunk_blocks = min 2048 t.total_blocks

  -- The loop, on fuel: `none` when the fuel does not suffice.
  pub overwrite_from :
      ℕ
      → OverwritePattern
      → ℕ
      → ℕ
      → ℕ
      → Rng
      → Device
      → List Progress
      → Option (Result EraseError (Device × List Progress))
  unfolding fill
  overwrite_from zero pattern pass passes lba rng device told = none
  overwrite_from (suc fuel) pattern pass passes lba rng device told =
      let blocks = min (t.total_blocks - lba) chunk_blocks in
      let filled = fill pattern rng (blocks * t.block_size) in
      let next = lba + blocks in
      let event : Progress = record {
        pass_number = pass;
        total_passes = passes;
        blocks_done = next;
        blocks_total = t.total_blocks;
      } in
      let rest = λ (written : Device).
        overwrite_from fuel pattern pass passes next filled.1 written (told ++ event ∷ []) in
      if ltb lba t.total_blocks
      then elim (from_io (t.write_blocks device lba filled.0)) [
        | ok written ↦ rest written
        | err e ↦ some (err e)
        | panic ↦ some panic
      ]
      else some (ok (device, told))

  -- A round takes a block at least.
  unfoldable pub execute_overwrite_pass_destructive :
      OverwritePattern
      → ℕ
      → ℕ
      → Rng
      → Device
      → List Progress
      → Result EraseError (Device × List Progress)
  unfolding overwrite_from
  execute_overwrite_pass_destructive pattern pass passes rng device told =
      returned (overwrite_from (t.total_blocks + 1) pattern pass passes 0 rng device told)
