-- ===== src/Acquire/Engine/Loop.antt =====
-- The acquisition loop of engine.rs, between its iterations and at its end.
use vajra_forensics_platform.Prelude.{ℕ, ◌+◌, ◌≡◌, Bool, Option, some, List, [], ◌∷◌, ◌++◌, arith}
use vajra_forensics_platform.Acquire.BadSector.{BadSectorStrategy, BadSectorMap}
use vajra_forensics_platform.Acquire.BadSector.Marks.{AllInBounds}
use vajra_forensics_platform.Acquire.Engine.{Source, image, LoopState, store_checkpoint}
use vajra_forensics_platform.Acquire.Engine.Reads.{Copied}

-- An image: the writes that made it, each of them a faithful copy of the blocks behind those of the
-- writes before it, at the place that these have from the start of the range.
pub data IsImage {S : Type 0} (source : Source S) (strategy : BadSectorStrategy) (m : BadSectorMap)
    (start_lba : ℕ) : ℕ → List (ℕ × List ℕ) → Type 0 where
  image_empty : IsImage source strategy m start_lba 0 []
  image_write :
      {n count : ℕ} {writes : List (ℕ × List ℕ)} {block : List ℕ}
      → IsImage source strategy m start_lba n writes
      → Copied source strategy m (start_lba + n) count block
      → IsImage source strategy m start_lba (n + count) (writes ++ (n, block) ∷ [])

-- What a writer was given, in order: a write that succeeds keeps its place and its blocks.
pub record IsWriter {W : Type 0} (write : ℕ → List ℕ → W → Option W)
    (contents : W → List (ℕ × List ℕ)) : Type 0 where
  pub keeps :
      (lba : ℕ) (block : List ℕ) (w written : W)
      → write lba block w ≡ some written
      → contents written ≡ contents w ++ (lba, block) ∷ []

-- The bytes of writes.
abbrev pub written_bytes : List (ℕ × List ℕ) → List ℕ
written_bytes [] = []
written_bytes ((lba, block) ∷ writes) = block ++ written_bytes writes

module _ {S W : Type 0} (source : Source S) (strategy : BadSectorStrategy)
    (write : ℕ → List ℕ → W → Option W) (token : ℕ → Bool) (interval start_lba end_lba : ℕ) where
  pub store_checkpoint-current_lba :
      (s : LoopState S W)
      → (store_checkpoint source strategy write token interval start_lba end_lba s).current_lba
        ≡ s.current_lba
  unfolding store_checkpoint
  store_checkpoint-current_lba s = ground arith

module _ {S W : Type 0} (source : Source S) (strategy : BadSectorStrategy)
    (write : ℕ → List ℕ → W → Option W) (contents : W → List (ℕ × List ℕ))
    (is_writer : IsWriter write contents) (token : ℕ → Bool) (interval start_lba end_lba : ℕ) where
  -- What holds between iterations: the blocks before the current one are copied faithfully.
  pub record Progress (s : LoopState S W) : Type 0 where
    pub covered : ℕ
    pub here : s.current_lba ≡ start_lba + covered
    pub image : IsImage source strategy s.bad_sector_map start_lba covered (contents s.writer)
    pub hashes_image : s.hashed ≡ written_bytes (contents s.writer)
    pub bounds : AllInBounds s.bad_sector_map.unreadable_ranges
