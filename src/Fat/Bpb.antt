-- ===== src/Fat/Bpb.antt =====
-- crates/vajra-fs-fat/src/bpb.rs: reading the geometry of a volume from its boot sector. The name of
-- the system that formatted it is left out.
pub mod Geometry
pub use vajra_forensics_platform.Files.{FilesystemType, fat12, fat16, fat32}
use vajra_forensics_platform.Prelude.{
  ℕ, zero, suc, ◌+◌, ◌-◌, ◌*◌, ◌/◌, Bool, true, false, not, ◌||◌, ◌&&◌, List, [], ◌∷◌, ltb, leb,
  ◌==◌, if◌then◌else◌, length, get_or, le16, le32, u32, u64, Result, ok, err,
}

-- The errors of the boot sector and the chains; those of directories and reads are left out.
pub data FatError : Type 0 where
  invalid_boot_sector : ℕ → FatError
  unsupported_sector_size : ℕ → FatError
  invalid_sectors_per_cluster : ℕ → FatError
  cluster_out_of_bounds : ℕ → ℕ → FatError
  chain_loop : ℕ → FatError

pub record FatBpb : Type 0 where
  pub partition_start_lba : ℕ
  pub bytes_per_sector : ℕ
  pub sectors_per_cluster : ℕ
  pub reserved_sectors : ℕ
  pub num_fats : ℕ
  pub root_entry_count : ℕ
  pub total_sectors : ℕ
  pub fat_size_sectors : ℕ
  pub root_cluster : ℕ
  pub fs_info_sector : ℕ
  pub fat_type : FilesystemType
  pub total_clusters : ℕ
  pub first_data_lba : ℕ
  pub root_dir_lba : ℕ
  pub root_dir_sectors : ℕ

pub is_sector_size : ℕ → Bool
is_sector_size n = n == 512 || n == 1024 || n == 2048 || n == 4096

-- A byte that is a power of two and at most 128.
pub is_cluster_size : ℕ → Bool
is_cluster_size n =
    n == 1 || n == 2 || n == 4 || n == 8 || n == 16 || n == 32 || n == 64 || n == 128

-- The 16-bit field, or the 32-bit one when it is 0.
abbrev pub wide_field : ℕ → ℕ → ℕ
wide_field narrow wide = if narrow == 0 then wide else narrow

pub fat_type_of : ℕ → ℕ → ℕ → FilesystemType
fat_type_of fat_size_16 root_cluster total_clusters =
    if (fat_size_16 == 0 && leb 2 root_cluster) || leb 65525 total_clusters
    then fat32
    else if leb 4085 total_clusters
    then fat16
    else fat12

-- The geometry of a sector that passed the checks. A product or a sum of 32-bit fields wraps, where
-- a build that checks for overflow panics.
pub geometry : ℕ → List ℕ → FatBpb
unfolding fat_type_of
geometry start sector =
    let bytes_per_sector = le16 sector 11 in
    let sectors_per_cluster = get_or sector 13 0 in
    let reserved_sectors = le16 sector 14 in
    let num_fats = get_or sector 16 0 in
    let root_entry_count = le16 sector 17 in
    let total_sectors = wide_field (le16 sector 19) (le32 sector 32) in
    let fat_size_16 = le16 sector 22 in
    let fat_size_sectors = wide_field fat_size_16 (le32 sector 36) in
    let root_cluster = if fat_size_16 == 0 then le32 sector 44 else 0 in
    let fs_info_sector = if fat_size_16 == 0 then le16 sector 48 else 0 in
    let root_dir_sectors = (root_entry_count * 32 + (bytes_per_sector - 1)) / bytes_per_sector in
    let fat_total_sectors = u32 (num_fats * fat_size_sectors) in
    let data_sectors =
      total_sectors - u32 (u32 (reserved_sectors + fat_total_sectors) + root_dir_sectors) in
    let total_clusters = data_sectors / sectors_per_cluster in
    let root_dir_lba = u64 (u64 (start + reserved_sectors) + fat_total_sectors) in
    record {
      partition_start_lba = start;
      bytes_per_sector = bytes_per_sector;
      sectors_per_cluster = sectors_per_cluster;
      reserved_sectors = reserved_sectors;
      num_fats = num_fats;
      root_entry_count = root_entry_count;
      total_sectors = total_sectors;
      fat_size_sectors = fat_size_sectors;
      root_cluster = root_cluster;
      fs_info_sector = fs_info_sector;
      fat_type = fat_type_of fat_size_16 root_cluster total_clusters;
      total_clusters = total_clusters;
      first_data_lba = u64 (root_dir_lba + root_dir_sectors);
      root_dir_lba = root_dir_lba;
      root_dir_sectors = root_dir_sectors;
    }

unfoldable pub parse : ℕ → List ℕ → Result FatError FatBpb
unfolding is_sector_size is_cluster_size geometry
parse start sector =
    if ltb (length sector) 512
    then err (invalid_boot_sector start)
    else if not (get_or sector 510 0 == 85) || not (get_or sector 511 0 == 170)
    then err (invalid_boot_sector start)
    else if not (is_sector_size (le16 sector 11))
    then err (unsupported_sector_size (le16 sector 11))
    else if not (is_cluster_size (get_or sector 13 0))
    then err (invalid_sectors_per_cluster (get_or sector 13 0))
    else ok (geometry start sector)

unfoldable pub cluster_to_lba : FatBpb → ℕ → Result FatError ℕ
cluster_to_lba bpb cluster =
    if ltb cluster 2
    then err (cluster_out_of_bounds cluster (u32 (bpb.total_clusters + 2)))
    else ok (u64 (bpb.first_data_lba + (cluster - 2) * bpb.sectors_per_cluster))

pub fat_table_lba : FatBpb → ℕ → ℕ
fat_table_lba bpb fat_idx =
    u64 (u64 (bpb.partition_start_lba + bpb.reserved_sectors) + fat_idx * bpb.fat_size_sectors)

pub cluster_size_bytes : FatBpb → ℕ
cluster_size_bytes bpb = bpb.sectors_per_cluster * bpb.bytes_per_sector
