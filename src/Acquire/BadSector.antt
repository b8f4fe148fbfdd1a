-- ===== src/Acquire/BadSector.antt =====
-- crates/vajra-acquire/src/bad_sector.rs: the strategy, the map of unreadable ranges, and the
-- placeholder. The map's JSON form is left out.
pub mod Marks
use vajra_forensics_platform.Prelude.{
  ℕ, zero, suc, ◌+◌, ◌*◌, ◌%◌, Bool, false, ◌||◌, ◌&&◌, List, [], ◌∷◌, String, ltb, leb, ◌==◌,
  if◌then◌else◌, length, get_or, replicate, u64,
}

-- The back-off time only delays a retry.
pub record BadSectorStrategy : Type 0 where
  pub max_retries : ℕ
  pub initial_chunk_sectors : ℕ
  pub min_chunk_sectors : ℕ
  pub placeholder_pattern : List ℕ

pub record UnreadableRange : Type 0 where
  pub start_lba : ℕ
  pub block_count : ℕ
  pub error_details : String

pub record BadSectorMap : Type 0 where
  pub unreadable_ranges : List UnreadableRange
  pub total_unreadable_blocks : ℕ
  pub total_unreadable_bytes : ℕ

abbrev pub new_map : BadSectorMap
new_map = record { unreadable_ranges = []; total_unreadable_blocks = 0; total_unreadable_bytes = 0 }

-- The last range grows when the new one begins where it ends; else the new one is pushed.
pub push_range : ℕ → ℕ → String → List UnreadableRange → List UnreadableRange
push_range start count details [] =
    record { start_lba = start; block_count = count; error_details = details } ∷ []
push_range start count details (r ∷ []) =
    if u64 (r.start_lba + r.block_count) == start
    then record {
      start_lba = r.start_lba;
      block_count = u64 (r.block_count + count);
      error_details = r.error_details;
    }
      ∷ []
    else r ∷ record { start_lba = start; block_count = count; error_details = details } ∷ []
push_range start count details (r ∷ q ∷ rs) = r ∷ push_range start count details (q ∷ rs)

unfoldable pub record_unreadable : ℕ → ℕ → ℕ → String → BadSectorMap → BadSectorMap
unfolding push_range
record_unreadable start count block_size details m = if count == 0 then m else record {
  unreadable_ranges = push_range start count details m.unreadable_ranges;
  total_unreadable_blocks = u64 (m.total_unreadable_blocks + count);
  total_unreadable_bytes = u64 (m.total_unreadable_bytes + u64 (count * block_size));
}

pub any_holds : ℕ → List UnreadableRange → Bool
any_holds lba [] = false
any_holds lba (r ∷ rs) =
    (leb r.start_lba lba && ltb lba (u64 (r.start_lba + r.block_count))) || any_holds lba rs

unfoldable pub is_lba_bad : ℕ → BadSectorMap → Bool
unfolding any_holds
is_lba_bad lba m = any_holds lba m.unreadable_ranges

pub any_meets : ℕ → ℕ → List UnreadableRange → Bool
any_meets start end_lba [] = false
any_meets start end_lba (r ∷ rs) =
    (ltb r.start_lba end_lba && ltb start (u64 (r.start_lba + r.block_count)))
    || any_meets start end_lba rs

unfoldable pub is_range_bad : ℕ → ℕ → BadSectorMap → Bool
unfolding any_meets
is_range_bad start count m = any_meets start (u64 (start + count)) m.unreadable_ranges

-- `fill_placeholder` of a buffer of `n` bytes, from the index `i`.
pub placeholder_from : ℕ → ℕ → List ℕ → List ℕ
placeholder_from i zero pattern = []
placeholder_from i (suc n) pattern =
    get_or pattern (i % length pattern) 0 ∷ placeholder_from (i + 1) n pattern

unfoldable pub fill_placeholder : ℕ → List ℕ → List ℕ
unfolding placeholder_from
fill_placeholder n pattern =
    if length pattern == 0 then replicate n 0 else placeholder_from 0 n pattern
