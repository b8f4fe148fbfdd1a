-- ===== src/Acquire/Engine/Stall.antt =====
-- The loop of engine.rs on a range of 2 ^ 32 blocks or more, whose number is cut to 32 bits.
use vajra_forensics_platform.Prelude.{
  ℕ, zero, suc, ◌+◌, ◌-◌, ◌%◌, ◌<◌, ◌≤◌, ◌^◌, ◌≡◌, ◌≢◌, ap, refl, sym, ◌∙◌, Bool, Bool-cases, inl,
  inr, Option, some, Option-cases, List, ltb, ok, ok_injective, Result-cases, false, arith,
}
use vajra_forensics_platform.Acquire.BadSector.{BadSectorStrategy, BadSectorMap}
use vajra_forensics_platform.Acquire.Engine.{
  Source, LoopState, chunk_sectors, store_checkpoint, advance, acquire_step, acquire_loop,
  read_chunk_with_fallback,
}
use vajra_forensics_platform.Acquire.Engine.Loop.{store_checkpoint-current_lba}

module _ {S W : Type 0} (source : Source S) (strategy : BadSectorStrategy)
    (write : ℕ → List ℕ → W → Option W) (token : ℕ → Bool) (interval start_lba end_lba : ℕ) where
  advance-stalls :
      (s : LoopState S W) (written : W) (block : List ℕ) (marked : BadSectorMap) (after : S)
      → s.current_lba ≤ end_lba
      → end_lba < 2 ^ 64
      → (end_lba - s.current_lba + 1) % 2 ^ 32 ≡ 0
      → (advance source strategy write token interval start_lba end_lba s written
          (chunk_sectors source strategy write token interval start_lba end_lba s.current_lba)
          block
          marked
          after).current_lba
        ≡ s.current_lba
  unfolding advance chunk_sectors
  advance-stalls s written block marked after le fits cut = ground arith

  step_stalls :
      (s next : LoopState S W)
      → s.current_lba ≤ end_lba
      → end_lba < 2 ^ 64
      → (end_lba - s.current_lba + 1) % 2 ^ 32 ≡ 0
      → acquire_step source strategy write token interval start_lba end_lba s ≡ ok next
      → next.current_lba ≡ s.current_lba
  unfolding acquire_step
  step_stalls s next le fits cut stepped =
      let step = acquire_step source strategy write token interval start_lba end_lba s in
      let count =
        chunk_sectors source strategy write token interval start_lba end_lba s.current_lba in
      let (block, marked, after) =
        read_chunk_with_fallback source strategy s.current_lba count s.bad_sector_map
          s.source_state in
      elim (Bool-cases (token s.current_lba)) [
        | inl t ↦ absurd (ground (arith, stepped, t))
        | inr t ↦ elim (Option-cases (write (s.current_lba - start_lba) block s.writer)) [
          | inl w ↦ absurd (ground (arith, stepped, t, w))
          | inr (written, w) ↦
              let made =
                advance source strategy write token interval start_lba end_lba s written count block
                  marked after in
              let same : next
                  ≡ store_checkpoint source strategy write token interval start_lba end_lba made =
                ok_injective (sym stepped ∙ rw (acquire_step, t, w) refl) in
              ap (λ (x : LoopState S W). x.current_lba) same
              ∙ store_checkpoint-current_lba source strategy write token interval start_lba end_lba
                  made
              ∙ advance-stalls s written block marked after le fits cut
        ]
      ]

  -- When the number of blocks that are left is a multiple of 2 ^ 32, the loop never completes: on
  -- no fuel does it return a finished copy. The last block number fits in 64 bits.
  pub acquire_loop_stalls :
      (fuel : ℕ) (s out : LoopState S W)
      → s.current_lba ≤ end_lba
      → end_lba < 2 ^ 64
      → (end_lba - s.current_lba + 1) % 2 ^ 32 ≡ 0
      → acquire_loop source strategy write token interval start_lba end_lba fuel s ≢ some (ok out)
  unfolding acquire_loop
  acquire_loop_stalls zero s out le fits cut h = absurd (ground (arith, h))
  acquire_loop_stalls (suc fuel) s out le fits cut h =
      let going : ltb end_lba s.current_lba ≡ false = ground arith in
      elim (Result-cases (acquire_step source strategy write token interval start_lba end_lba s)) [
        | inl (next, stepped) ↦
            let same = step_stalls s next le fits cut stepped in
            acquire_loop_stalls fuel next out (omega (arith, same)) fits
              (ap (λ n. (end_lba - n + 1) % 2 ^ 32) same ∙ cut)
              (sym (rw (acquire_loop, going, stepped) refl) ∙ h)
        | inr (inl (e, stepped)) ↦ absurd (ground (arith, h, going, stepped))
        | inr (inr stepped) ↦ absurd (ground (arith, h, going, stepped))
      ]
