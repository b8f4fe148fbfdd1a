-- ===== src/Fat/Extents.antt =====
-- crates/vajra-fs-fat/src/parser.rs: clusters_to_extents and extents_to_location, the runs of blocks
-- that a list of clusters takes.
pub mod Sectors
use vajra_forensics_platform.Prelude.{
  ℕ, ◌+◌, List, [], ◌∷◌, ◌++◌, ◌==◌, if◌then◌else◌, u32, u64, Result, ok, ◌>>=◌,
}
use vajra_forensics_platform.Files.{DataLocation, contiguous, fragmented, unresolved}
use vajra_forensics_platform.Fat.Bpb.{FatBpb, FatError, cluster_to_lba}

-- The loop over pairs of neighbours: the run that is open, the cluster before, and the runs that are
-- closed.
pub extents_loop : FatBpb → ℕ → ℕ → ℕ → List ℕ → List (ℕ × ℕ) → Result FatError (List (ℕ × ℕ))
extents_loop bpb start_lba block_count prev [] extents =
    ok (extents ++ (start_lba, block_count) ∷ [])
extents_loop bpb start_lba block_count prev (next ∷ clusters) extents =
    let spc = bpb.sectors_per_cluster in
    let closed = extents ++ (start_lba, block_count) ∷ [] in
    let longer = extents_loop bpb start_lba (u64 (block_count + spc)) next clusters extents in
    let from = λ (lba : ℕ). extents_loop bpb lba spc next clusters closed in
    if next == u32 (prev + 1) then longer else cluster_to_lba bpb next >>= from

pub clusters_to_extents : FatBpb → List ℕ → Result FatError (List (ℕ × ℕ))
unfolding extents_loop
clusters_to_extents bpb [] = ok []
clusters_to_extents bpb (c ∷ clusters) =
    cluster_to_lba bpb c >>= λ lba. extents_loop bpb lba bpb.sectors_per_cluster c clusters []

abbrev pub extents_to_location : List (ℕ × ℕ) → DataLocation
extents_to_location [] = unresolved
extents_to_location (e ∷ []) = contiguous e.0 e.1
extents_to_location (e ∷ (f ∷ es)) = fragmented (e ∷ (f ∷ es))
