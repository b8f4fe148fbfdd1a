-- ===== src/Ntfs/Boot.antt =====
-- crates/vajra-fs-ntfs/src/boot.rs and src/error.rs: the geometry of a volume from its boot sector.
use vajra_forensics_platform.Prelude.{
  ℕ, ◌+◌, ◌-◌, ◌*◌, ◌%◌, ◌^◌, ◌&&◌, ◌||◌, not, List, [], ◌∷◌, ltb, ◌==◌, if◌then◌else◌, length,
  get_or, slice, bytes_eq, le16, le64, u32, u64, Result, ok, err,
}
use vajra_forensics_platform.Raid.Error.{IoError}

pub data NtfsError : Type 0 where
  io : IoError → NtfsError
  invalid_boot_sector : ℕ → NtfsError
  invalid_mft_magic : ℕ → NtfsError
  fixup_failed : ℕ → NtfsError
  corrupted_attribute : ℕ → ℕ → NtfsError
  invalid_data_run : ℕ → NtfsError
  mft_record_out_of_bounds : ℕ → NtfsError

pub record NtfsBoot : Type 0 where
  pub partition_start_lba : ℕ
  pub bytes_per_sector : ℕ
  pub sectors_per_cluster : ℕ
  pub total_sectors : ℕ
  pub mft_start_lcn : ℕ
  pub mft_mirr_start_lcn : ℕ
  pub mft_record_size : ℕ
  pub index_record_size : ℕ
  pub serial_number : ℕ

-- "NTFS    ".
abbrev pub ntfs_boot_magic : List ℕ
ntfs_boot_magic = 78 ∷ 84 ∷ 70 ∷ 83 ∷ 32 ∷ 32 ∷ 32 ∷ 32 ∷ []

-- The size that a signed byte gives: positive, in clusters; else, the shift of one byte, which is
-- taken modulo the width.
pub record_size : ℕ → ℕ → ℕ → ℕ
record_size clusters sectors_per_cluster bytes_per_sector =
    if ltb 0 clusters && ltb clusters 128
    then u32 (u32 (clusters * sectors_per_cluster) * bytes_per_sector)
    else 2 ^ ((256 - clusters) % 32)

unfoldable pub parse : ℕ → List ℕ → Result NtfsError NtfsBoot
unfolding record_size
parse start sector =
    let bytes_per_sector = le16 sector 11 in
    let sectors_per_cluster = get_or sector 13 0 in
    if ltb (length sector) 512
    then err (invalid_boot_sector start)
    else if not (bytes_eq (slice sector 3 11) ntfs_boot_magic)
        || not (get_or sector 510 0 == 85)
        || not (get_or sector 511 0 == 170)
    then err (invalid_boot_sector start)
    else ok (record {
      partition_start_lba = start;
      bytes_per_sector = bytes_per_sector;
      sectors_per_cluster = sectors_per_cluster;
      total_sectors = le64 sector 40;
      mft_start_lcn = le64 sector 48;
      mft_mirr_start_lcn = le64 sector 56;
      mft_record_size = record_size (get_or sector 64 0) sectors_per_cluster bytes_per_sector;
      index_record_size = record_size (get_or sector 68 0) sectors_per_cluster bytes_per_sector;
      serial_number = le64 sector 72;
    })

abbrev pub lcn_to_lba : NtfsBoot → ℕ → ℕ
lcn_to_lba boot lcn = u64 (boot.partition_start_lba + u64 (lcn * boot.sectors_per_cluster))

abbrev pub cluster_size_bytes : NtfsBoot → ℕ
cluster_size_bytes boot = boot.sectors_per_cluster * boot.bytes_per_sector
