-- ===== src/Files.antt =====
-- crates/vajra-core/src/fs.rs: what the parsers of the file systems give.
use vajra_forensics_platform.Prelude.{ℕ, Bool, Option, List, [], ◌∷◌}

pub data FilesystemType : Type 0 where
  ntfs : FilesystemType
  ext4 : FilesystemType
  fat12 : FilesystemType
  fat16 : FilesystemType
  fat32 : FilesystemType
  ex_fat : FilesystemType
  apfs : FilesystemType
  hfs_plus : FilesystemType
  unknown : FilesystemType

pub data MetadataConfidence : Type 0 where
  low : MetadataConfidence
  reconstructed : MetadataConfidence
  partial : MetadataConfidence
  confirmed : MetadataConfidence

pub data DataLocation : Type 0 where
  resident : List ℕ → DataLocation
  contiguous : ℕ → ℕ → DataLocation
  fragmented : List (ℕ × ℕ) → DataLocation
  unresolved : DataLocation

-- A text is the list of its code points.
pub record RecoverableFileEntry (DateTime : Type 0) : Type 0 where
  pub id : ℕ
  pub original_path : Option (List ℕ)
  pub filename : Option (List ℕ)
  pub size_bytes : Option ℕ
  pub created : Option DateTime
  pub modified : Option DateTime
  pub accessed : Option DateTime
  pub deleted : Bool
  pub data_location : DataLocation
  pub metadata_confidence : MetadataConfidence
  pub source_filesystem : FilesystemType

-- The extents of a file on the device.
abbrev pub extents_of : DataLocation → List (ℕ × ℕ)
extents_of (resident bytes) = []
extents_of (contiguous start_lba block_count) = (start_lba, block_count) ∷ []
extents_of (fragmented extents) = extents
extents_of unresolved = []
