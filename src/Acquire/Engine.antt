-- ===== src/Acquire/Engine.antt =====
-- crates/vajra-acquire/src/profile.rs and the copy of crates/vajra-acquire/src/engine.rs: reading
-- with retries and fall-back, and the acquisition loop. The source, the image writer and the
-- cancellation token are parameters: a source is a state with a read that changes it, since a drive
-- that fails now may answer later. The evidence vault is left out, but for the checkpoints that the
-- loop stores. So are the progress hook and the waits between retries.
pub mod Reads
pub mod Loop
pub mod Stall
use vajra_forensics_platform.Prelude.{
  ℕ, zero, suc, ◌+◌, ◌-◌, ◌*◌, min, Bool, true, false, Option, none, some, List, [], ◌∷◌, ◌++◌,
  String, ltb, leb, if◌then◌else◌, u32, u64, Result, ok, err, panic, ◌>>=◌,
}
use vajra_forensics_platform.Acquire.BadSector.{
  BadSectorStrategy, BadSectorMap, record_unreadable, fill_placeholder,
}

pub data AcquisitionProfile : Type 0 where
  physical : AcquisitionProfile
  partial : ℕ → ℕ → AcquisitionProfile
  logical : String → ℕ → ℕ → AcquisitionProfile

pub lba_bounds : AcquisitionProfile → ℕ → ℕ × ℕ
lba_bounds physical total = (0, total - 1)
lba_bounds (partial start_lba end_lba) total = (start_lba, min end_lba (total - 1))
lba_bounds (logical description start_lba end_lba) total = (start_lba, min end_lba (total - 1))

-- What a read of a source gives: its bytes, or the text of its error.
pub data Read : Type 0 where
  bytes : List ℕ → Read
  failure : String → Read

pub record Source (S : Type 0) : Type 0 where
  pub block_size : ℕ
  pub read_blocks : ℕ → ℕ → S → Read × S

-- The errors that end the copy loop; those of the steps around it are left out.
pub data AcquisitionError : Type 0 where
  cancelled : AcquisitionError
  image : AcquisitionError

module _ {S : Type 0} (source : Source S) (strategy : BadSectorStrategy) where
  -- The loop of retries, with `left` attempts after the next; `last_err` is what the last one gave.
  pub try_reads : ℕ → ℕ → ℕ → S → Read × S
  try_reads zero lba count s = source.read_blocks lba count s
  try_reads (suc left) lba count s =
      let (answer, after) = source.read_blocks lba count s in
      elim answer [
        | bytes block ↦ (bytes block, after)
        | failure details ↦ try_reads left lba count after
      ]

  -- Blocks that no attempt could read: marked, and replaced by the placeholder.
  pub give_up : ℕ → ℕ → String → BadSectorMap → List ℕ × BadSectorMap
  unfolding record_unreadable fill_placeholder
  give_up lba count details m = (
    fill_placeholder (count * source.block_size) strategy.placeholder_pattern,
    record_unreadable lba count source.block_size details m,
  )

  pub read_single_sector_with_fallback : ℕ → BadSectorMap → S → List ℕ × BadSectorMap × S
  unfolding try_reads give_up
  read_single_sector_with_fallback lba m s =
      let (answer, after) = try_reads strategy.max_retries lba 1 s in
      elim answer [
        | bytes block ↦ (block, m, after)
        | failure details ↦ let (block, marked) = give_up lba 1 details m in (block, marked, after)
      ]

  -- `for offset in 0..count`, with `left` sectors to go from `lba`.
  pub read_sectors : ℕ → ℕ → BadSectorMap → S → List ℕ × BadSectorMap × S
  unfolding read_single_sector_with_fallback
  read_sectors zero lba m s = ([], m, s)
  read_sectors (suc left) lba m s =
      let (block, marked, after) = read_single_sector_with_fallback lba m s in
      let (rest, all_marked, last) = read_sectors left (u64 (lba + 1)) marked after in
      (block ++ rest, all_marked, last)

  pub read_chunk_with_fallback : ℕ → ℕ → BadSectorMap → S → List ℕ × BadSectorMap × S
  unfolding try_reads read_sectors give_up
  read_chunk_with_fallback lba count m s =
      let (answer, after) = try_reads strategy.max_retries lba count s in
      elim answer [
        | bytes block ↦ (block, m, after)
        | failure details ↦
            if ltb strategy.min_chunk_sectors count
            then read_sectors count lba m after
            else (let (block, marked) = give_up lba count details m in (block, marked, after))
      ]

-- The state of the loop: the source, the writer, the bytes hashed so far, and the checkpoints stored.
pub record LoopState (S W : Type 0) : Type 0 where
  pub source_state : S
  pub writer : W
  pub hashed : List ℕ
  pub bad_sector_map : BadSectorMap
  pub current_lba : ℕ
  pub last_checkpoint_lba : ℕ
  pub checkpoints : List (ℕ × BadSectorMap)

module _ {S W : Type 0} (source : Source S) (strategy : BadSectorStrategy)
    (write_image_blocks : ℕ → List ℕ → W → Option W) (token : ℕ → Bool)
    (checkpoint_interval_blocks start_lba end_lba : ℕ) where
  -- The chunk that the loop asks for; the number of blocks left is cut to 32 bits.
  pub chunk_sectors : ℕ → ℕ
  chunk_sectors current_lba = min strategy.initial_chunk_sectors (u32 (end_lba - current_lba + 1))

  -- The checkpoint at the end of an iteration.
  pub store_checkpoint : LoopState S W → LoopState S W
  store_checkpoint s =
      if leb checkpoint_interval_blocks (s.current_lba - s.last_checkpoint_lba)
      then record {
        source_state = s.source_state;
        writer = s.writer;
        hashed = s.hashed;
        bad_sector_map = s.bad_sector_map;
        current_lba = s.current_lba;
        last_checkpoint_lba = s.current_lba;
        checkpoints = (s.current_lba, s.bad_sector_map) ∷ s.checkpoints;
      }
      else s

  -- The state after a chunk is hashed and written.
  pub advance : LoopState S W → W → ℕ → List ℕ → BadSectorMap → S → LoopState S W
  advance s written count block marked after = record {
    source_state = after;
    writer = written;
    hashed = s.hashed ++ block;
    bad_sector_map = marked;
    current_lba = u64 (s.current_lba + count);
    last_checkpoint_lba = s.last_checkpoint_lba;
    checkpoints = s.checkpoints;
  }

  -- One iteration, while `current_lba <= end_lba`.
  pub acquire_step : LoopState S W → Result AcquisitionError (LoopState S W)
  unfolding chunk_sectors read_chunk_with_fallback store_checkpoint advance
  acquire_step s =
      if token s.current_lba
      then err cancelled
      else (let count = chunk_sectors s.current_lba in
          let (block, marked, after) =
            read_chunk_with_fallback source strategy s.current_lba count s.bad_sector_map
              s.source_state in
          elim (write_image_blocks (s.current_lba - start_lba) block s.writer) [
            | none ↦ err image
            | some written ↦ ok (store_checkpoint (advance s written count block marked after))
          ])

  -- The loop, on fuel: `none` when the fuel does not suffice.
  pub acquire_loop : ℕ → LoopState S W → Option (Result AcquisitionError (LoopState S W))
  unfolding acquire_step
  acquire_loop zero s = none
  acquire_loop (suc fuel) s =
      if ltb end_lba s.current_lba then some (ok s) else elim (acquire_step s) [
        | ok next ↦ acquire_loop fuel next
        | err e ↦ some (err e)
        | panic ↦ some panic
      ]
