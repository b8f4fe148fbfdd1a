-- ===== src/Ntfs/Runs/Ends.antt =====
-- That decode_data_runs of mft.rs ends on every input.
use vajra_forensics_platform.Prelude.{
  ℕ, zero, suc, ◌+◌, ◌*◌, ◌/◌, ◌%◌, ◌^◌, ◌≤◌, ◌<◌, min, ◌≡◌, refl, inl, inr, Bool-cases, ◌&&◌, some,
  List, [], ◌∷◌, ltb, leb, ◌==◌, length, length-append, get_or, u64, Result, ok, err, panic, arith,
}
use vajra_forensics_platform.Ntfs.Boot.{NtfsError, invalid_data_run, NtfsBoot}
use vajra_forensics_platform.Ntfs.Runs.{
  or_bytes, signed_bytes, push_run, decode_from, decode_data_runs,
}

-- Three bytes for every extent, or an error at a byte of the list.
abbrev pub IsOutcome : List ℕ → Result NtfsError (List (ℕ × ℕ)) → Type 0
IsOutcome runlist (ok extents) = length extents * 3 ≤ length runlist
IsOutcome runlist (err e) = (at : ℕ) × (e ≡ invalid_data_run at) × (at ≤ length runlist)
IsOutcome runlist panic = ⊥

length-push_run :
    (boot : NtfsBoot) (lcn len offset : ℕ) (runlist : List ℕ) (extents : List (ℕ × ℕ))
    → length (push_run boot lcn (or_bytes runlist offset len) extents) * 3
      ≤ length extents * 3 + 3 * min len 1
unfolding push_run or_bytes
length-push_run boot lcn zero offset runlist extents = ground arith
length-push_run boot lcn (suc len) offset runlist extents =
    elim (Bool-cases (ltb lcn (2 ^ 63) && ltb 0 (or_bytes runlist offset (suc len)))) [
      | inl pushed ↦ rw (pushed) (omega (arith, length-append extents (_ ∷ [])))
      | inr left ↦ rw (left) (omega arith)
    ]

decode_from-ends :
    (fuel : ℕ) (boot : NtfsBoot) (runlist : List ℕ) (offset prev : ℕ) (extents : List (ℕ × ℕ))
    → length runlist < fuel + offset
    → offset ≤ length runlist
    → length extents * 3 ≤ offset
    → (r : Result NtfsError (List (ℕ × ℕ))) × (decode_from fuel boot runlist offset prev extents
        ≡ some r)
      × IsOutcome runlist r
unfolding decode_from
decode_from-ends zero boot runlist offset prev extents lt le bound = absurd (omega arith)
decode_from-ends (suc fuel) boot runlist offset prev extents lt le bound =
    let header = get_or runlist offset 0 in
    let len = header % 16 in
    let off = header / 16 % 16 in
    let lcn = u64 (prev + signed_bytes runlist (offset + 1 + len) off) in
    let found = push_run boot lcn (or_bytes runlist (offset + 1) len) extents in
    elim (Bool-cases (leb (length runlist) offset)) [
      | inl past ↦ (ok extents, rw (past) refl, omega arith)
      | inr inside ↦ elim (Bool-cases (header == 0)) [
        | inl zero_header ↦ (ok extents, rw (inside, zero_header) refl, omega arith)
        | inr started ↦ elim (Bool-cases (ltb (length runlist) (offset + 1 + len + off))) [
          | inl over ↦ (
            err (invalid_data_run (offset + 1)),
            rw (inside, started, over) refl,
            (offset + 1, refl, ground (arith, inside)),
          )
          | inr held ↦ elim (Bool-cases (off == 0)) [
            | inl sparse ↦
                rw (inside, started, held, sparse)
                  (decode_from-ends fuel boot runlist (offset + 1 + len) prev extents (omega arith)
                    (ground (arith, held)) (omega arith))
            | inr dense ↦
                rw (inside, started, held, dense)
                  (decode_from-ends fuel boot runlist (offset + 1 + len + off) lcn found
                    (omega arith) (ground (arith, held))
                    (let pushed = length-push_run boot lcn len (offset + 1) runlist extents in
                      ground (arith, dense, pushed)))
          ]
        ]
      ]
    ]

-- Decoding ends on every list of bytes, with at most one extent for three bytes, or with an error
-- at a position that is not past the end of the list.
pub decode_data_runs-ends :
    (boot : NtfsBoot) (runlist : List ℕ)
    → (r : Result NtfsError (List (ℕ × ℕ))) × (decode_data_runs runlist boot ≡ some r)
      × IsOutcome runlist r
unfolding decode_data_runs
decode_data_runs-ends boot runlist =
    decode_from-ends (length runlist + 1) boot runlist 0 0 [] (omega arith) (omega arith)
      (omega arith)
