-- ===== src/Fat/Entry.antt =====
-- crates/vajra-fs-fat/src/parser.rs, build_recoverable_entry, and the entries of a directory that
-- src/dir_entry.rs gives it. A text is the list of its code points.
pub mod Deleted
use vajra_forensics_platform.Prelude.{
  ℕ, zero, suc, ◌+◌, ◌-◌, ◌/◌, max, Bool, true, false, ◌&&◌, ◌||◌, Option, none, some, List, [],
  ◌∷◌, ◌++◌, ltb, leb, ◌==◌, if◌then◌else◌, u32, u64, Result, ok, ◌>>=◌, returned,
}
use vajra_forensics_platform.Files.{
  MetadataConfidence, low, partial, confirmed, DataLocation, contiguous, unresolved,
  RecoverableFileEntry,
}
use vajra_forensics_platform.Fat.Bpb.{FatBpb, FatError, cluster_size_bytes}
use vajra_forensics_platform.Fat.Table.{FatTable, is_cluster_free, follow_chain}
use vajra_forensics_platform.Fat.Extents.{clusters_to_extents, extents_to_location}

pub record FatDirEntry (DateTime : Type 0) : Type 0 where
  pub name_83 : List ℕ
  pub lfn_name : Option (List ℕ)
  pub is_deleted : Bool
  pub is_directory : Bool
  pub is_volume_label : Bool
  pub start_cluster : ℕ
  pub file_size : ℕ
  pub created_at : Option DateTime
  pub modified_at : Option DateTime
  pub accessed_at : Option DateTime

-- White space of Unicode.
abbrev pub is_space : ℕ → Bool
is_space c =
    (leb 9 c && leb c 13)
    || c == 32
    || c == 133
    || c == 160
    || c == 5760
    || (leb 8192 c && leb c 8202)
    || c == 8232
    || c == 8233
    || c == 8239
    || c == 8287
    || c == 12288

-- `trim().is_empty()`.
abbrev pub is_blank : List ℕ → Bool
is_blank [] = true
is_blank (c ∷ text) = if is_space c then is_blank text else false

abbrev pub name_or : Option (List ℕ) → List ℕ → List ℕ
name_or (some lfn) name_83 = if is_blank lfn then name_83 else lfn
name_or none name_83 = name_83

abbrev pub display_name : {DateTime : Type 0} → FatDirEntry DateTime → List ℕ
display_name entry = name_or entry.lfn_name entry.name_83

-- Whether all clusters of a chain are free.
unfoldable pub all_free : FatTable → List ℕ → Bool
all_free t [] = true
all_free t (c ∷ cs) = is_cluster_free t c && all_free t cs

abbrev pub free_confidence : Bool → MetadataConfidence
free_confidence free = if free then confirmed else partial

-- The number of clusters that a file of this size needs.
pub needed_clusters : FatBpb → ℕ → ℕ
needed_clusters bpb file_size =
    let cluster_size = cluster_size_bytes bpb in
    if ltb 0 cluster_size
    then u32 (max (u64 (file_size + cluster_size - 1) / cluster_size) 1)
    else 1

-- The `n` clusters from the `c`th on that the volume has, and whether they are all free.
pub contiguous_from : FatBpb → FatTable → ℕ → ℕ → Bool → List ℕ → List ℕ × Bool
contiguous_from bpb t c zero free chain = (chain, free)
contiguous_from bpb t c (suc n) free chain =
    let rest = contiguous_from bpb t (c + 1) n (is_cluster_free t c && free) (chain ++ c ∷ []) in
    if leb (u32 (bpb.total_clusters + 2)) c then (chain, free) else rest

-- Where the blocks of a list of clusters lie, with a confidence.
abbrev pub placed :
    FatBpb → List ℕ → MetadataConfidence → Result FatError (DataLocation × MetadataConfidence)
placed bpb clusters confidence =
    clusters_to_extents bpb clusters >>= λ extents. ok (extents_to_location extents, confidence)

-- A deleted file: its chain where there is one, else a run from its first cluster on.
pub deleted_place :
    FatBpb → FatTable → ℕ → ℕ → List ℕ → Result FatError (DataLocation × MetadataConfidence)
unfolding all_free needed_clusters contiguous_from
deleted_place bpb t start_cluster file_size [] =
    let end = u32 (start_cluster + needed_clusters bpb file_size) in
    let run = contiguous_from bpb t start_cluster (end - start_cluster) true [] in
    placed bpb run.0 (free_confidence run.1)
deleted_place bpb t start_cluster file_size (c ∷ cs) =
    placed bpb (c ∷ cs) (free_confidence (all_free t (c ∷ cs)))

pub data_place :
    FatBpb → FatTable → Bool → ℕ → ℕ → Result FatError (DataLocation × MetadataConfidence)
unfolding deleted_place
data_place bpb t is_deleted start_cluster file_size =
    if ltb start_cluster 2
    then if file_size == 0 then ok (contiguous 0 0, confirmed) else ok (unresolved, low)
    else returned (follow_chain t start_cluster) >>= λ chain.
        (if is_deleted
          then deleted_place bpb t start_cluster file_size chain
          else placed bpb chain confirmed)

abbrev pub entry_at :
    {DateTime : Type 0}
    → FatBpb
    → FatDirEntry DateTime
    → List ℕ
    → DataLocation × MetadataConfidence
    → RecoverableFileEntry DateTime
entry_at bpb entry full_path place = record {
  id = entry.start_cluster;
  original_path = some full_path;
  filename = some (display_name entry);
  size_bytes = some entry.file_size;
  created = entry.created_at;
  modified = entry.modified_at;
  accessed = entry.accessed_at;
  deleted = entry.is_deleted;
  data_location = place.0;
  metadata_confidence = place.1;
  source_filesystem = bpb.fat_type;
}

unfoldable pub build_recoverable_entry :
    {DateTime : Type 0}
    → FatBpb
    → FatTable
    → FatDirEntry DateTime
    → List ℕ
    → Result FatError (RecoverableFileEntry DateTime)
unfolding data_place
build_recoverable_entry bpb t entry full_path =
    data_place bpb t entry.is_deleted entry.start_cluster entry.file_size >>= λ place.
    ok (entry_at bpb entry full_path place)
