-- ===== src/Ntfs/Bitmap.antt =====
-- crates/vajra-fs-ntfs/src/bitmap.rs: which clusters are free, and how far the clusters of a deleted
-- file still are.
pub mod Confidence
use vajra_forensics_platform.Prelude.{
  ℕ, zero, suc, ◌+◌, ◌-◌, ◌/◌, ◌%◌, ◌^◌, Bool, true, false, List, [], ◌∷◌, ltb, ◌==◌, if◌then◌else◌,
  length, get_or, u64, Result, ok, panic,
}
use vajra_forensics_platform.Files.{MetadataConfidence, low, partial, confirmed}
use vajra_forensics_platform.Ntfs.Boot.{NtfsError, NtfsBoot}

-- The bit of a cluster; a cluster past the end is not free.
unfoldable pub is_cluster_free : List ℕ → ℕ → Bool
is_cluster_free bitmap_bytes lcn =
    if ltb (lcn / 8) (length bitmap_bytes)
    then get_or bitmap_bytes (lcn / 8) 0 / 2 ^ (lcn % 8) % 2 == 0
    else false

-- `all_free` and `any_free` after one cluster.
abbrev pub mark : Bool → Bool × Bool → Bool × Bool
mark is_free (all_free, any_free) = if is_free then (all_free, true) else (false, any_free)

abbrev pub start_lcn : NtfsBoot → ℕ → ℕ
start_lcn boot start_lba = (start_lba - boot.partition_start_lba) / boot.sectors_per_cluster

abbrev pub cluster_count : NtfsBoot → ℕ → ℕ
cluster_count boot block_count =
    u64 (block_count + boot.sectors_per_cluster - 1) / boot.sectors_per_cluster

-- The `n` clusters of an extent from the `c`th on.
pub clusters_from : List ℕ → ℕ → ℕ → ℕ → Bool × Bool → Bool × Bool
unfolding is_cluster_free
clusters_from bitmap_bytes start c zero flags = flags
clusters_from bitmap_bytes start c (suc n) flags =
    clusters_from bitmap_bytes start (c + 1) n
      (mark (is_cluster_free bitmap_bytes (u64 (start + c))) flags)

pub extents_from : List ℕ → NtfsBoot → List (ℕ × ℕ) → Bool × Bool → Bool × Bool
unfolding clusters_from
extents_from bitmap_bytes boot [] flags = flags
extents_from bitmap_bytes boot ((start_lba, block_count) ∷ extents) flags =
    extents_from bitmap_bytes boot extents (
      clusters_from bitmap_bytes (start_lcn boot start_lba) 0 (cluster_count boot block_count)
        flags)

abbrev pub confidence_of : Bool × Bool → MetadataConfidence
confidence_of (all_free, any_free) =
    if all_free then confirmed else if any_free then partial else low

-- A volume without sectors in its clusters makes the division panic.
unfoldable pub evaluate_extents_confidence :
    List ℕ → List (ℕ × ℕ) → NtfsBoot → Result NtfsError MetadataConfidence
unfolding extents_from
evaluate_extents_confidence bitmap_bytes [] boot = ok low
evaluate_extents_confidence bitmap_bytes (e ∷ extents) boot =
    if boot.sectors_per_cluster == 0
    then panic
    else ok (confidence_of (extents_from bitmap_bytes boot (e ∷ extents) (true, false)))
