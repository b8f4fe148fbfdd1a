-- ===== src/Acquire/Engine/Reads.antt =====
-- The reads with fall-back of engine.rs, as copies of blocks.
use vajra_forensics_platform.Prelude.{
  ℕ, zero, suc, ◌+◌, ◌*◌, ◌<◌, ◌≤◌, ◌^◌, ◌≡◌, ◌⊎◌, refl, subst, ◌∙◌, Bool-cases, inl, inr, true,
  List, [], ◌++◌, String, ltb, length, length-append, u64, arith,
}
use vajra_forensics_platform.Acquire.BadSector.{
  BadSectorStrategy, BadSectorMap, fill_placeholder, is_lba_bad,
}
use vajra_forensics_platform.Acquire.BadSector.Marks.{
  length-fill_placeholder, AllInBounds, is_lba_bad-record_unreadable,
}
use vajra_forensics_platform.Acquire.Engine.{
  Read, bytes, failure, Source, try_reads, give_up, read_single_sector_with_fallback, read_sectors,
  read_chunk_with_fallback,
}

-- A read that succeeds gives all the blocks it was asked for.
pub record IsBlockSource {S : Type 0} (source : Source S) : Type 0 where
  pub full :
      (lba count : ℕ) (s : S) (block : List ℕ)
      → (source.read_blocks lba count s).0 ≡ bytes block
      → length block ≡ count * source.block_size

Read-cases : (r : Read) → ((block : List ℕ) × (r ≡ bytes block)) ⊎ ((d : String) × (r ≡ failure d))
Read-cases (bytes block) = inl (block, refl)
Read-cases (failure d) = inr (d, refl)

-- A faithful copy of the blocks from `lba` on: it consists of answers of the source, and of
-- placeholders for blocks that the map calls bad.
pub data Copied {S : Type 0} (source : Source S) (strategy : BadSectorStrategy) (m : BadSectorMap)
    : ℕ → ℕ → List ℕ → Type 0 where
  copied_none : {lba : ℕ} → Copied source strategy m lba 0 []
  copied_read :
      {lba count : ℕ} {block : List ℕ} (s : S)
      → (source.read_blocks lba count s).0 ≡ bytes block
      → Copied source strategy m lba count block
  copied_bad :
      {lba count : ℕ}
      → ((x : ℕ) → lba ≤ x → x < lba + count → is_lba_bad x m ≡ true)
      → Copied source strategy m lba count
          (fill_placeholder (count * source.block_size) strategy.placeholder_pattern)
  copied_append :
      {lba count after more : ℕ} {block rest : List ℕ}
      → Copied source strategy m lba count block
      → after ≡ lba + count
      → Copied source strategy m after more rest
      → Copied source strategy m lba (count + more) (block ++ rest)

module _ {S : Type 0} (source : Source S) (strategy : BadSectorStrategy) where
  pub Copied-keeps :
      (m m₂ : BadSectorMap) (lba count : ℕ) (block : List ℕ)
      → ((x : ℕ) → is_lba_bad x m ≡ true → is_lba_bad x m₂ ≡ true)
      → Copied source strategy m lba count block
      → Copied source strategy m₂ lba count block
  Copied-keeps m m₂ lba _ _ keeps copied_none = copied_none
  Copied-keeps m m₂ lba count block keeps (copied_read s h) = copied_read s h
  Copied-keeps m m₂ lba count _ keeps (copied_bad bad) =
      copied_bad (λ x lo hi. keeps x (bad x lo hi))
  Copied-keeps m m₂ _ _ _ keeps (copied_append {lba} {count} {after} {more} {block} {rest} p e q) =
      copied_append (Copied-keeps m m₂ lba count block keeps p) e
        (Copied-keeps m m₂ after more rest keeps q)

  -- A copy has all the bytes of its blocks, when a read that succeeds has.
  pub length-Copied :
      (m : BadSectorMap) (lba count : ℕ) (block : List ℕ)
      → IsBlockSource source
      → Copied source strategy m lba count block
      → length block ≡ count * source.block_size
  length-Copied m lba _ _ full copied_none = omega arith
  length-Copied m lba count block full (copied_read s h) = full.full lba count s block h
  length-Copied m lba count _ full (copied_bad bad) =
      length-fill_placeholder (count * source.block_size) strategy.placeholder_pattern
  length-Copied m _ _ _ full (copied_append {lba} {count} {after} {more} {block} {rest} p e q) =
      let a = length-Copied m lba count block full p in
      let b = length-Copied m after more rest full q in
      length-append block rest ∙ ground (arith, a, b)

  -- What a read leaves: a faithful copy, and a map that keeps its marks and stays in bounds.
  pub record IsRead (m : BadSectorMap) (lba count : ℕ) (block : List ℕ) (marked : BadSectorMap)
      : Type 0 where
    pub copied : Copied source strategy marked lba count block
    pub keeps : (x : ℕ) → is_lba_bad x m ≡ true → is_lba_bad x marked ≡ true
    pub bounds : AllInBounds marked.unreadable_ranges

  try_reads-IsRead :
      (left lba count : ℕ) (m : BadSectorMap) (s : S) (block : List ℕ)
      → AllInBounds m.unreadable_ranges
      → (try_reads source strategy left lba count s).0 ≡ bytes block
      → IsRead m lba count block m
  unfolding try_reads
  try_reads-IsRead zero lba count m s block inside h = record {
    copied = copied_read s h;
    keeps = λ x bad. bad;
    bounds = inside;
  }
  try_reads-IsRead (suc left) lba count m s block inside h =
      elim (Read-cases (source.read_blocks lba count s).0) [
        | inl (b, r) ↦ record {
          copied = copied_read s (ground (arith, h, r));
          keeps = λ x bad. bad;
          bounds = inside;
        }
        | inr (d, r) ↦
            try_reads-IsRead left lba count m (source.read_blocks lba count s).1 block inside
              (ground (arith, h, r))
      ]

  give_up-IsRead :
      (lba count : ℕ) (details : String) (m : BadSectorMap)
      → lba + count < 2 ^ 64
      → AllInBounds m.unreadable_ranges
      → IsRead m lba count
          (give_up source strategy lba count details m).0
          (give_up source strategy lba count details m).1
  unfolding give_up
  give_up-IsRead lba count details m fits inside =
      let marks = λ (x : ℕ).
        is_lba_bad-record_unreadable lba count source.block_size details m x fits inside in
      record {
        copied = copied_bad (λ x lo hi. (marks x).1 ∙ ground arith);
        keeps = λ x bad. (marks x).1 ∙ ground (arith, bad);
        bounds = (marks 0).0;
      }

  single-IsRead :
      (lba : ℕ) (m : BadSectorMap) (s : S)
      → lba + 1 < 2 ^ 64
      → AllInBounds m.unreadable_ranges
      → IsRead m lba 1
          (read_single_sector_with_fallback source strategy lba m s).0
          (read_single_sector_with_fallback source strategy lba m s).1
  unfolding read_single_sector_with_fallback
  single-IsRead lba m s fits inside =
      elim (Read-cases (try_reads source strategy strategy.max_retries lba 1 s).0) [
        | inl (b, r) ↦
            rw (read_single_sector_with_fallback, r)
              (try_reads-IsRead strategy.max_retries lba 1 m s b inside r)
        | inr (d, r) ↦
            rw (read_single_sector_with_fallback, r) (give_up-IsRead lba 1 d m fits inside)
      ]

  sectors-IsRead :
      (left lba : ℕ) (m : BadSectorMap) (s : S)
      → lba + left < 2 ^ 64
      → AllInBounds m.unreadable_ranges
      → IsRead m lba left
          (read_sectors source strategy left lba m s).0
          (read_sectors source strategy left lba m s).1
  unfolding read_sectors
  sectors-IsRead zero lba m s fits inside = record {
    copied = copied_none;
    keeps = λ x bad. bad;
    bounds = inside;
  }
  sectors-IsRead (suc left) lba m s fits inside =
      let one = single-IsRead lba m s (omega arith) inside in
      let (block, marked, after) = read_single_sector_with_fallback source strategy lba m s in
      let rest = sectors-IsRead left (u64 (lba + 1)) marked after (omega arith) one.bounds in
      record {
        copied =
            subst
              (λ n.
                Copied source strategy (read_sectors source strategy (suc left) lba m s).1 lba n
                  (read_sectors source strategy (suc left) lba m s).0)
              (omega arith)
              (copied_append (Copied-keeps marked _ lba 1 block rest.keeps one.copied) (omega arith)
                rest.copied);
        keeps = λ x bad. rest.keeps x (one.keeps x bad);
        bounds = rest.bounds;
      }

  -- A read with fall-back gives a faithful copy of its blocks, whatever the source answers and
  -- however often it changes its mind: what is not an answer of the source is the placeholder of
  -- blocks that the map marks from then on. No mark is lost. The block numbers fit in 64 bits,
  -- and the ranges of the map are not empty and fit in 64 bits.
  pub read_chunk_with_fallback-IsRead :
      (lba count : ℕ) (m : BadSectorMap) (s : S)
      → lba + count < 2 ^ 64
      → AllInBounds m.unreadable_ranges
      → IsRead m lba count
          (read_chunk_with_fallback source strategy lba count m s).0
          (read_chunk_with_fallback source strategy lba count m s).1
  unfolding read_chunk_with_fallback
  read_chunk_with_fallback-IsRead lba count m s fits inside =
      elim (Read-cases (try_reads source strategy strategy.max_retries lba count s).0) [
        | inl (b, r) ↦
            rw (read_chunk_with_fallback, r)
              (try_reads-IsRead strategy.max_retries lba count m s b inside r)
        | inr (d, r) ↦ elim (Bool-cases (ltb strategy.min_chunk_sectors count)) [
          | inl t ↦
              rw (read_chunk_with_fallback, r, t)
                (sectors-IsRead count lba m
                  (try_reads source strategy strategy.max_retries lba count s).1 fits inside)
          | inr t ↦ rw (read_chunk_with_fallback, r, t) (give_up-IsRead lba count d m fits inside)
        ]
      ]
