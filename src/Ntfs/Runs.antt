-- ===== src/Ntfs/Runs.antt =====
-- crates/vajra-fs-ntfs/src/mft.rs, decode_data_runs: the extents of a run list. A signed 64-bit
-- number is its two's complement.
pub mod Numbers
pub mod Encode
pub mod Decode
pub mod Ends
use vajra_forensics_platform.Prelude.{
  ℕ, zero, suc, ◌+◌, ◌-◌, ◌*◌, ◌/◌, ◌%◌, ◌^◌, bit_or, Bool, ◌&&◌, Option, none, some, List, [], ◌∷◌,
  ◌++◌, ltb, leb, ◌==◌, if◌then◌else◌, length, get_or, u64, Result, ok, err,
}
use vajra_forensics_platform.Ntfs.Boot.{NtfsError, invalid_data_run, NtfsBoot, lcn_to_lba}

-- A shift of a 64-bit number; its distance is taken modulo the width.
abbrev pub shl : ℕ → ℕ → ℕ
shl value distance = u64 (value * 2 ^ (distance % 64))

-- The bytes from `offset` on, `n` of them, each `|=` at its place.
pub or_bytes : List ℕ → ℕ → ℕ → ℕ
or_bytes runlist offset zero = 0
or_bytes runlist offset (suc n) =
    bit_or (or_bytes runlist offset n) (shl (get_or runlist (offset + n) 0) (n * 8))

-- The `n` bytes from the `i`th on, filled with ones.
pub sign_fill : ℕ → ℕ → ℕ → ℕ
sign_fill zero i lcn_delta = lcn_delta
sign_fill (suc n) i lcn_delta = sign_fill n (i + 1) (bit_or lcn_delta (shl 255 (i * 8)))

pub signed_bytes : List ℕ → ℕ → ℕ → ℕ
unfolding or_bytes sign_fill
signed_bytes runlist offset n =
    let lcn_delta = or_bytes runlist offset n in
    if get_or runlist (offset + n - 1) 0 / 128 % 2 == 1
    then sign_fill (8 - n) n lcn_delta
    else lcn_delta

-- A run at a negative place, or an empty one, gives no extent.
pub push_run : NtfsBoot → ℕ → ℕ → List (ℕ × ℕ) → List (ℕ × ℕ)
push_run boot current_lcn cluster_count extents =
    if ltb current_lcn (2 ^ 63) && ltb 0 cluster_count
    then extents
      ++ (lcn_to_lba boot current_lcn, u64 (cluster_count * boot.sectors_per_cluster)) ∷ []
    else extents

-- The loop, on fuel: `none` when the fuel does not suffice.
pub decode_from :
    ℕ → NtfsBoot → List ℕ → ℕ → ℕ → List (ℕ × ℕ) → Option (Result NtfsError (List (ℕ × ℕ)))
unfolding signed_bytes push_run
decode_from zero boot runlist offset prev_lcn extents = none
decode_from (suc fuel) boot runlist offset prev_lcn extents =
    let rest =
      λ (next lcn : ℕ) (found : List (ℕ × ℕ)). decode_from fuel boot runlist next lcn found in
    let header = get_or runlist offset 0 in
    let len_bytes = header % 16 in
    let off_bytes = header / 16 % 16 in
    let len_at = offset + 1 in
    let off_at = len_at + len_bytes in
    let current_lcn = u64 (prev_lcn + signed_bytes runlist off_at off_bytes) in
    if leb (length runlist) offset
    then some (ok extents)
    else if header == 0
    then some (ok extents)
    else if ltb (length runlist) (off_at + off_bytes)
    then some (err (invalid_data_run len_at))
    else if off_bytes == 0
    then rest off_at prev_lcn extents
    else rest (off_at + off_bytes) current_lcn
        (push_run boot current_lcn (or_bytes runlist len_at len_bytes) extents)

-- Each round takes a byte at least.
unfoldable pub decode_data_runs : List ℕ → NtfsBoot → Option (Result NtfsError (List (ℕ × ℕ)))
unfolding decode_from
decode_data_runs runlist boot = decode_from (length runlist + 1) boot runlist 0 0 []
