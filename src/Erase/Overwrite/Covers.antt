-- ===== src/Erase/Overwrite/Covers.antt =====
-- That a pass of overwrite.rs leaves nothing of what the device held.
use mathlib.Core.List.{append_assoc, append-nil}
use native.Mathlib.Nat.{mul-le-mul_right}
use vajra_forensics_platform.Prelude.{
  ℕ, zero, suc, ◌+◌, ◌-◌, ◌*◌, ◌≤◌, ◌<◌, min, ◌≡◌, refl, sym, subst, ap, ◌∙◌, inl, inr, false,
  Bool-cases, some, List, [], ◌∷◌, ◌++◌, ltb, length, length-append, length-take, length-drop,
  length-replicate, take, take_append, take_all, drop, replicate, replicate_add, Result, ok, err,
  panic, Result-cases, returned, arith,
}
use vajra_forensics_platform.Raid.Error.{IoError}
use vajra_forensics_platform.Erase.Overwrite.{
  EraseError, io, OverwritePattern, zeros, ones, random, Target, Progress, fill, chunk_blocks,
  overwrite_from, execute_overwrite_pass_destructive,
}

-- A device that holds bytes, and whose writes that succeed replace those at their place.
pub record IsStorage {Device : Type 0} (t : Target Device) (contents : Device → List ℕ)
    : Type 0 where
  pub written :
      (device after : Device) (lba : ℕ) (bytes : List ℕ)
      → t.write_blocks device lba bytes ≡ ok after
      → contents after
        ≡ take (lba * t.block_size) (contents device)
          ++ (bytes ++ drop (lba * t.block_size + length bytes) (contents device))

-- The device refused a write with this error, or panicked in one.
abbrev pub IsRefused : {Device : Type 0} → Target Device → EraseError → Type 0
IsRefused {Device} t e =
    (device : Device) × (lba : ℕ) × (bytes : List ℕ) × (x : IoError) × (t.write_blocks device lba
        bytes
      ≡ err x)
    × (e ≡ io x)

abbrev pub IsPanicking : {Device : Type 0} → Target Device → Type 0
IsPanicking {Device} t =
    (device : Device) × (lba : ℕ) × (bytes : List ℕ) × (t.write_blocks device lba bytes ≡ panic)

module _ {Device Rng : Type 0} (t : Target Device) (fill_bytes : Rng → ℕ → List ℕ × Rng) where
  -- Bytes that a generator gives for a pattern, in some number of calls.
  pub data Output (pattern : OverwritePattern) : Rng → List ℕ → Type 0 where
    nothing : (rng : Rng) → Output pattern rng []
    filled :
        (rng : Rng) (n : ℕ) (rest : List ℕ)
        → Output pattern (fill t fill_bytes pattern rng n).1 rest
        → Output pattern rng ((fill t fill_bytes pattern rng n).0 ++ rest)

  pub Output-zeros :
      (rng : Rng) (out : List ℕ) → Output zeros rng out → out ≡ replicate (length out) 0
  unfolding fill
  Output-zeros rng out (nothing r) = refl
  Output-zeros rng out (filled r n rest output) =
      ap (λ l. replicate n 0 ++ l) (Output-zeros r rest output)
      ∙ replicate_add n (length rest) 0
      ∙ ap (λ k. replicate k 0)
          (omega (arith, length-append (replicate n 0) rest, length-replicate {A = ℕ} n 0))

  length-fill :
      (pattern : OverwritePattern) (rng : Rng) (n : ℕ)
      → ((r : Rng) (m : ℕ) → length (fill_bytes r m).0 ≡ m)
      → length (fill t fill_bytes pattern rng n).0 ≡ n
  unfolding fill
  length-fill zeros rng n fills = length-replicate n 0
  length-fill ones rng n fills = length-replicate n 255
  length-fill random rng n fills = fills rng n

  module _ (contents : Device → List ℕ) (storage : IsStorage t contents)
      (fills : (r : Rng) (m : ℕ) → length (fill_bytes r m).0 ≡ m) where
    IsFull : Device → Type 0
    IsFull device = length (contents device) ≡ t.total_blocks * t.block_size

    -- What comes of a pass from a block on: the blocks before it are left, those after it are output.
    abbrev Outcome :
        OverwritePattern → ℕ → Rng → Device → Result EraseError (Device × List Progress) → Type 0
    Outcome pattern lba rng device (ok done) =
        (out : List ℕ) × Output pattern rng out
        × (contents done.0 ≡ take (lba * t.block_size) (contents device) ++ out)
        × IsFull done.0
    Outcome pattern lba rng device (err e) = IsRefused t e
    Outcome pattern lba rng device panic = IsPanicking t

    after_write :
        (device after : Device) (lba blocks : ℕ) (bytes : List ℕ)
        → IsFull device
        → lba + blocks ≤ t.total_blocks
        → length bytes ≡ blocks * t.block_size
        → t.write_blocks device lba bytes ≡ ok after
        → (take ((lba + blocks) * t.block_size) (contents after)
            ≡ take (lba * t.block_size) (contents device) ++ bytes)
          × IsFull after
    unfolding IsFull
    after_write device after lba blocks bytes full fits size ok_write =
        let before = take (lba * t.block_size) (contents device) in
        let behind = drop (lba * t.block_size + length bytes) (contents device) in
        let written = storage.written device after lba bytes ok_write in
        let inside : (lba + blocks) * t.block_size ≤ t.total_blocks * t.block_size =
          mul-le-mul_right t.block_size fits in
        let low = length-take (lba * t.block_size) (contents device) in
        let high = length-drop (lba * t.block_size + length bytes) (contents device) in
        (
          ap (take ((lba + blocks) * t.block_size))
                (written ∙ sym (append_assoc before bytes behind))
              ∙ take_append (before ++ bytes) behind ((lba + blocks) * t.block_size)
                  (omega (arith, length-append before bytes, low, inside, full)),
          ap length written
              ∙ omega (
                arith,
                length-append before (bytes ++ behind),
                length-append bytes behind,
                low,
                high,
                inside,
                full,
              ),
        )

    later-Outcome :
        (pattern : OverwritePattern) (lba blocks : ℕ) (rng : Rng) (device after : Device)
        → (r : Result EraseError (Device × List Progress)) → IsFull device
        → lba + blocks ≤ t.total_blocks
        → t.write_blocks device lba (fill t fill_bytes pattern rng (blocks * t.block_size)).0
          ≡ ok after
        → Outcome pattern
            (lba + blocks)
            (fill t fill_bytes pattern rng (blocks * t.block_size)).1
            after
            r
        → Outcome pattern lba rng device r
    later-Outcome pattern lba blocks rng device after (ok done) full fits e
          (out, output, held, done_full) =
        let bytes = fill t fill_bytes pattern rng (blocks * t.block_size) in
        let sized = length-fill pattern rng (blocks * t.block_size) fills in
        let (kept, after_full) = after_write device after lba blocks bytes.0 full fits sized e in
        (
          bytes.0 ++ out,
          filled rng (blocks * t.block_size) out output,
          held
              ∙ ap (λ l. l ++ out) kept
              ∙ append_assoc (take (lba * t.block_size) (contents device)) bytes.0 out,
          done_full,
        )
    later-Outcome pattern lba blocks rng device after (err x) full fits e outcome = outcome
    later-Outcome pattern lba blocks rng device after panic full fits e outcome = outcome

    pass_ends :
        (pattern : OverwritePattern) (lba : ℕ) (rng : Rng) (device : Device) (told : List Progress)
        → IsFull device
        → lba ≤ t.total_blocks
        → ltb lba t.total_blocks ≡ false
        → Outcome pattern lba rng device (ok (device, told))
    unfolding IsFull
    pass_ends pattern lba rng device told full le past =
        let last : t.total_blocks ≡ lba = ground (arith, past) in
        let whole =
          take_all (contents device) (lba * t.block_size)
            (full ∙ ap (λ k. k * t.block_size) last) in
        (
          [],
          nothing rng,
          sym (append-nil (take (lba * t.block_size) (contents device)) ∙ whole),
          full,
        )

    overwrite_from_lem :
        (fuel : ℕ) (pattern : OverwritePattern) (pass passes lba : ℕ) (rng : Rng) (device : Device)
        → (told : List Progress) → IsFull device
        → lba ≤ t.total_blocks
        → t.total_blocks < fuel + lba
        → (r : Result EraseError (Device × List Progress)) × (overwrite_from t fill_bytes fuel
              pattern pass passes lba rng device told
            ≡ some r)
          × Outcome pattern lba rng device r
    unfolding overwrite_from
    overwrite_from_lem zero pattern pass passes lba rng device told full le enough =
        absurd (omega arith)
    overwrite_from_lem (suc fuel) pattern pass passes lba rng device told full le enough =
        let blocks = min (t.total_blocks - lba) (chunk_blocks t fill_bytes) in
        let bytes = fill t fill_bytes pattern rng (blocks * t.block_size) in
        elim (Bool-cases (ltb lba t.total_blocks)) [
          | inr past ↦ (
            ok (device, told),
            rw (past) refl,
            pass_ends pattern lba rng device told full le past,
          )
          | inl more ↦ elim (Result-cases (t.write_blocks device lba bytes.0)) [
            | inl (after, e) ↦
                let event : Progress = record {
                  pass_number = pass;
                  total_passes = passes;
                  blocks_done = lba + blocks;
                  blocks_total = t.total_blocks;
                } in
                let fits : lba + blocks ≤ t.total_blocks = ground (arith, more) in
                let sized = length-fill pattern rng (blocks * t.block_size) fills in
                let (r, made, outcome) =
                  overwrite_from_lem fuel pattern pass passes (lba + blocks) bytes.1 after
                    (told ++ event ∷ [])
                    (after_write device after lba blocks bytes.0 full fits sized e).1 fits
                    (ground (arith, more, enough)) in
                (
                  r,
                  rw (more, e) made,
                  later-Outcome pattern lba blocks rng device after r full fits e outcome,
                )
            | inr (inl (x, e)) ↦ (err (io x), rw (more, e) refl, (device, lba, bytes.0, x, e, refl))
            | inr (inr e) ↦ (panic, rw (more, e) refl, (device, lba, bytes.0, e))
          ]
        ]

    -- What a pass leaves on the device.
    abbrev pub IsCovered :
        OverwritePattern → Rng → Result EraseError (Device × List Progress) → Type 0
    IsCovered pattern rng (ok done) =
        Output pattern rng (contents done.0)
        × (length (contents done.0) ≡ t.total_blocks * t.block_size)
    IsCovered pattern rng (err e) = IsRefused t e
    IsCovered pattern rng panic = IsPanicking t

    covered :
        (pattern : OverwritePattern) (rng : Rng) (device : Device)
        → (r : Result EraseError (Device × List Progress)) → Outcome pattern 0 rng device r
        → IsCovered pattern rng r
    unfolding IsFull
    covered pattern rng device (ok done) (out, output, held, full) = (
      subst (λ (l : List ℕ). Output pattern rng l)
          (sym (
            held
            ∙ (let none_before : 0 * t.block_size ≡ 0 = omega arith in
                ap (λ (k : ℕ). take k (contents device) ++ out) none_before)))
          output,
      full,
    )
    covered pattern rng device (err e) outcome = outcome
    covered pattern rng device panic outcome = outcome

    pub execute_overwrite_pass_destructive-IsCovered :
        (pattern : OverwritePattern) (pass passes : ℕ) (rng : Rng) (device : Device)
        → (told : List Progress) → length (contents device) ≡ t.total_blocks * t.block_size
        → IsCovered pattern rng
            (execute_overwrite_pass_destructive t fill_bytes pattern pass passes rng device told)
    unfolding execute_overwrite_pass_destructive IsFull
    execute_overwrite_pass_destructive-IsCovered pattern pass passes rng device told full =
        let (r, made, outcome) =
          overwrite_from_lem (t.total_blocks + 1) pattern pass passes 0 rng device told full
            (omega arith) (omega arith) in
        subst (IsCovered pattern rng) (sym (ap returned made))
          (covered pattern rng device r outcome)
