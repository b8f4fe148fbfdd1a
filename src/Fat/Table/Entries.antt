-- ===== src/Fat/Table/Entries.antt =====
-- The entries of the table of fat_table.rs.
use vajra_forensics_platform.Prelude.{ℕ, ◌<◌, ◌^◌, ◌≡◌, refl, true, none, some, List, length, arith}
use vajra_forensics_platform.Fat.Bpb.{FilesystemType, fat12, fat16, fat32}
use vajra_forensics_platform.Fat.Table.{
  FatTable, next_in, free_in, get_next_cluster, is_cluster_free,
}

next_in-free_in :
    (type : FilesystemType) (table : List ℕ) (cluster : ℕ)
    → free_in type table cluster ≡ true
    → next_in type table cluster ≡ none
unfolding next_in free_in
next_in-free_in fat12 table cluster h = ground (arith, h)
next_in-free_in fat16 table cluster h = ground (arith, h)
next_in-free_in fat32 table cluster h = ground (arith, h)
next_in-free_in type table cluster h = refl

-- A free cluster has no next one.
pub get_next_cluster-is_cluster_free :
    (t : FatTable) (cluster : ℕ)
    → is_cluster_free t cluster ≡ true
    → get_next_cluster t cluster ≡ none
unfolding get_next_cluster is_cluster_free
get_next_cluster-is_cluster_free t cluster h = next_in-free_in t.fat_type t.fat_bytes cluster h

next_in-lt :
    (type : FilesystemType) (table : List ℕ) (cluster next : ℕ)
    → cluster < 2 ^ 28
    → next_in type table cluster ≡ some next
    → (cluster < length table) × (next < 2 ^ 28)
unfolding next_in
next_in-lt fat12 table cluster next lt h = (ground (arith, h), ground (arith, h))
next_in-lt fat16 table cluster next lt h = (ground (arith, h), ground (arith, h))
next_in-lt fat32 table cluster next lt h = (ground (arith, h), ground (arith, h))
next_in-lt type table cluster next lt h = absurd (ground (arith, h))

-- A cluster that has a next one has its entry in the table, and so has few of them; the next one is
-- a 28-bit number like itself.
pub get_next_cluster-lt :
    (t : FatTable) (cluster next : ℕ)
    → cluster < 2 ^ 28
    → get_next_cluster t cluster ≡ some next
    → (cluster < length t.fat_bytes) × (next < 2 ^ 28)
unfolding get_next_cluster
get_next_cluster-lt t cluster next lt h = next_in-lt t.fat_type t.fat_bytes cluster next lt h
