-- ===== src/Acquire/Examples.antt =====
-- A source of four blocks, of which one cannot be read, and its copy.
use vajra_forensics_platform.Prelude.{
  ℕ, ◌+◌, ◌*◌, ◌≡◌, ◌≢◌, refl, Bool, false, ◌||◌, Option, some, List, [], ◌∷◌, ◌++◌, replicate, ltb,
  leb, if◌then◌else◌, ok, arith, ◌&&◌,
}
use vajra_forensics_platform.Acquire.BadSector.{
  BadSectorStrategy, BadSectorMap, new_map, record_unreadable, is_lba_bad,
}
use vajra_forensics_platform.Acquire.BadSector.Marks.{
  AllInBounds, InBounds, is_within, is_lba_bad-record_unreadable,
}
use vajra_forensics_platform.Acquire.Engine.{
  bytes, failure, Source, LoopState, acquire_loop, read_chunk_with_fallback,
}
use vajra_forensics_platform.Acquire.Engine.Reads.{IsRead, read_chunk_with_fallback-IsRead}
use vajra_forensics_platform.Acquire.Engine.Stall.{acquire_loop_stalls}

-- Blocks of two bytes; a read that takes in block 1 fails. The state counts the reads.
abbrev source : Source ℕ
source = record {
  block_size = 2;
  read_blocks = λ lba count reads. (
    if leb lba 1 && ltb 1 (lba + count)
        then failure "medium error"
        else bytes (replicate (count * 2) 7),
    reads + 1,
  );
}

abbrev strategy : BadSectorStrategy
strategy = record {
  max_retries = 1;
  initial_chunk_sectors = 2;
  min_chunk_sectors = 1;
  placeholder_pattern = 86 ∷ 65 ∷ 74 ∷ [];
}

abbrev one_range : BadSectorMap
one_range = record {
  unreadable_ranges = record { start_lba = 4; block_count = 2; error_details = "crc" } ∷ [];
  total_unreadable_blocks = 2;
  total_unreadable_bytes = 4;
}

one_range_fits : AllInBounds one_range.unreadable_ranges
unfolding AllInBounds InBounds
one_range_fits = ((omega arith, omega arith), tt)

empty_fits : AllInBounds []
unfolding AllInBounds
empty_fits = tt

is_lba_bad-record_unreadable_example :
    AllInBounds (record_unreadable 6 3 2 "crc" one_range).unreadable_ranges
    × (is_lba_bad 7 (record_unreadable 6 3 2 "crc" one_range)
        ≡ (is_lba_bad 7 one_range || is_within 6 3 7))
is_lba_bad-record_unreadable_example =
    is_lba_bad-record_unreadable 6 3 2 "crc" one_range 7 (omega arith) one_range_fits

read_chunk_with_fallback-IsRead_example :
    IsRead source strategy new_map 0 2
      (read_chunk_with_fallback source strategy 0 2 new_map 0).0
      (read_chunk_with_fallback source strategy 0 2 new_map 0).1
read_chunk_with_fallback-IsRead_example =
    read_chunk_with_fallback-IsRead source strategy 0 2 new_map 0 (omega arith) empty_fits

-- A writer that keeps what it is given, and a token that is never set.
abbrev Image : Type 0
Image = List (ℕ × List ℕ)

abbrev write : ℕ → List ℕ → Image → Option Image
write lba block writes = some (writes ++ (lba, block) ∷ [])

abbrev contents : Image → Image
contents writes = writes

abbrev token : ℕ → Bool
token lba = false

abbrev start : LoopState ℕ Image
start = record {
  source_state = 0;
  writer = [];
  hashed = [];
  bad_sector_map = new_map;
  current_lba = 0;
  last_checkpoint_lba = 0;
  checkpoints = [];
}

acquire_loop_stalls_example :
    acquire_loop source strategy write token 10 0 4294967295 3 start ≢ some (ok start)
acquire_loop_stalls_example =
    acquire_loop_stalls source strategy write token 10 0 4294967295 3 start start (omega arith)
      (omega arith) refl
