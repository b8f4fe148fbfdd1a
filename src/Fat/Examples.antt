-- ===== src/Fat/Examples.antt =====
-- A small FAT16 table, whole and circular, and a volume's geometry.
use vajra_forensics_platform.Prelude.{
  ℕ, ◌≡◌, refl, Bool, true, false, All, none, some, List, [], ◌∷◌, replicate, ◌++◌, Result, ok, err,
  arith,
}
use vajra_forensics_platform.Fat.Bpb.{FatBpb, FatError, fat16, fat12, chain_loop, parse}
use vajra_forensics_platform.Files.{confirmed, extents_of, RecoverableFileEntry}
use vajra_forensics_platform.Fat.Extents.{clusters_to_extents}
use vajra_forensics_platform.Fat.Extents.Sectors.{
  blocks_of, cluster_blocks, IsDataCluster, clusters_to_extents-blocks,
}
use vajra_forensics_platform.Fat.Entry.{FatDirEntry, build_recoverable_entry}
use vajra_forensics_platform.Fat.Entry.Deleted.{
  IsHonest, build_recoverable_entry-chain, build_recoverable_entry-zeroed,
}
use vajra_forensics_platform.Fat.Table.{FatTable, is_cluster_free, follow_chain}
use vajra_forensics_platform.Fat.Table.Chains.{IsChain, follow_chain-IsChain, follow_chain-ends}
use vajra_forensics_platform.Fat.Table.Pigeonhole.{NoRepeats}

-- Clusters 2, 3 and 4 in a row, and cluster 5 free.
abbrev table : FatTable
table = record {
  fat_type = fat16;
  fat_bytes = 248 ∷ 255 ∷ 255 ∷ 255 ∷ 3 ∷ 0 ∷ 4 ∷ 0 ∷ 255 ∷ 255 ∷ 0 ∷ 0 ∷ [];
}

-- The same, with cluster 4 leading back to cluster 3.
abbrev circular : FatTable
circular = record {
  fat_type = fat16;
  fat_bytes = 248 ∷ 255 ∷ 255 ∷ 255 ∷ 3 ∷ 0 ∷ 4 ∷ 0 ∷ 3 ∷ 0 ∷ 0 ∷ 0 ∷ [];
}

followed : follow_chain table 2 ≡ some (ok (2 ∷ 3 ∷ 4 ∷ []))
unfolding follow_chain
followed = refl

circle_found : follow_chain circular 2 ≡ some (err (chain_loop 3))
unfolding follow_chain
circle_found = refl

follow_chain-IsChain_example : IsChain table 2 (2 ∷ 3 ∷ 4 ∷ []) × NoRepeats (2 ∷ 3 ∷ 4 ∷ [])
follow_chain-IsChain_example = follow_chain-IsChain table 2 (2 ∷ 3 ∷ 4 ∷ []) followed

follow_chain-ends_example : (r : Result FatError (List ℕ)) × (follow_chain circular 2 ≡ some r)
follow_chain-ends_example = follow_chain-ends circular 2 (omega arith)

five_is_free : is_cluster_free table 5 ≡ true
unfolding is_cluster_free
five_is_free = refl

-- A boot sector of 512-byte sectors, 4 of them to a cluster.
abbrev boot_sector : List ℕ
boot_sector =
    replicate 11 0
    ++ 0 ∷ 2 ∷ 4 ∷ 1 ∷ 0 ∷ 2 ∷ 16 ∷ 0 ∷ 100 ∷ 0 ∷ 248 ∷ 1 ∷ 0 ∷ []
    ++ replicate 486 0
    ++ 85 ∷ 170 ∷ []

abbrev volume : FatBpb
volume = record {
  partition_start_lba = 63;
  bytes_per_sector = 512;
  sectors_per_cluster = 4;
  reserved_sectors = 1;
  num_fats = 2;
  root_entry_count = 16;
  total_sectors = 100;
  fat_size_sectors = 1;
  root_cluster = 0;
  fs_info_sector = 0;
  fat_type = fat12;
  total_clusters = 24;
  first_data_lba = 67;
  root_dir_lba = 66;
  root_dir_sectors = 1;
}

parsed : parse 63 boot_sector ≡ ok volume
unfolding parse
parsed = refl

abbrev data_clusters : List ℕ
data_clusters = 2 ∷ 3 ∷ 5 ∷ []

data_clusters-good : All (IsDataCluster volume) data_clusters
data_clusters-good = (
  (omega arith, omega arith, omega arith),
  ((omega arith, omega arith, omega arith), ((omega arith, omega arith, omega arith), tt)),
)

clusters_to_extents-blocks_example :
    (es : List (ℕ × ℕ)) × (clusters_to_extents volume data_clusters ≡ ok es)
    × (blocks_of es ≡ cluster_blocks volume data_clusters)
clusters_to_extents-blocks_example =
    clusters_to_extents-blocks volume data_clusters data_clusters-good

abbrev file_at : Bool → ℕ → FatDirEntry ℕ
file_at is_deleted start_cluster = record {
  name_83 = 65 ∷ [];
  lfn_name = none;
  is_deleted = is_deleted;
  is_directory = false;
  is_volume_label = false;
  start_cluster = start_cluster;
  file_size = 6000;
  created_at = none;
  modified_at = none;
  accessed_at = none;
}

chain_clusters-good : All (IsDataCluster volume) (2 ∷ 3 ∷ 4 ∷ [])
chain_clusters-good = (
  (omega arith, omega arith, omega arith),
  ((omega arith, omega arith, omega arith), ((omega arith, omega arith, omega arith), tt)),
)

build_recoverable_entry-chain_example :
    (e : RecoverableFileEntry ℕ) × (build_recoverable_entry volume table
        (file_at true 2)
        (47 ∷ 65 ∷ [])
      ≡ ok e)
    × (e.size_bytes ≡ some 6000)
    × (blocks_of (extents_of e.data_location) ≡ cluster_blocks volume (2 ∷ 3 ∷ 4 ∷ []))
    × IsHonest table true (2 ∷ 3 ∷ 4 ∷ []) e.metadata_confidence
build_recoverable_entry-chain_example =
    build_recoverable_entry-chain volume table (file_at true 2) (47 ∷ 65 ∷ []) (2 ∷ 3 ∷ 4 ∷ [])
      (omega arith) followed chain_clusters-good

-- A file of three clusters, of which one is found.
build_recoverable_entry-zeroed_example :
    (e : RecoverableFileEntry ℕ) × (build_recoverable_entry volume table
        (file_at true 5)
        (47 ∷ 65 ∷ [])
      ≡ ok e)
    × (e.size_bytes ≡ some 6000)
    × (blocks_of (extents_of e.data_location) ≡ cluster_blocks volume (5 ∷ []))
    × (e.metadata_confidence ≡ confirmed)
build_recoverable_entry-zeroed_example =
    build_recoverable_entry-zeroed volume table (file_at true 5) (47 ∷ 65 ∷ []) (omega arith)
      (omega arith, omega arith, omega arith) refl five_is_free
