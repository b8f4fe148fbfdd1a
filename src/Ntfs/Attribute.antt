-- ===== src/Ntfs/Attribute.antt =====
-- crates/vajra-fs-ntfs/src/mft.rs, parse_mft_record: one attribute of a record.
use vajra_forensics_platform.Prelude.{
  ℕ, ◌+◌, ◌*◌, ◌%◌, ◌^◌, Bool, false, ◌&&◌, Option, none, some, List, [], ◌∷◌, ◌++◌, leb, ◌==◌,
  if◌then◌else◌, length, get_or, le32, le64, ok, err, panic,
}
use vajra_forensics_platform.Files.{DataLocation, resident, contiguous, fragmented, unresolved}
use vajra_forensics_platform.Ntfs.Boot.{NtfsBoot}
use vajra_forensics_platform.Ntfs.Runs.{decode_data_runs}
use vajra_forensics_platform.Ntfs.Text.{u16_chars, from_utf16_lossy, filetime_to_datetime}

pub record StandardInformationAttr (DateTime : Type 0) : Type 0 where
  pub created : Option DateTime
  pub modified : Option DateTime
  pub mft_modified : Option DateTime
  pub accessed : Option DateTime
  pub dos_flags : ℕ

pub record FileNameAttr (DateTime : Type 0) : Type 0 where
  pub parent_mft_ref : ℕ
  pub created : Option DateTime
  pub modified : Option DateTime
  pub mft_modified : Option DateTime
  pub accessed : Option DateTime
  pub allocated_size : ℕ
  pub real_size : ℕ
  pub namespace : ℕ
  pub name : List ℕ

pub record DataAttr : Type 0 where
  pub name : List ℕ
  pub is_non_resident : Bool
  pub allocated_size : ℕ
  pub real_size : ℕ
  pub location : DataLocation

-- What the attributes that have been read gave.
pub record Found (DateTime : Type 0) : Type 0 where
  pub standard_info : Option (StandardInformationAttr DateTime)
  pub file_names : List (FileNameAttr DateTime)
  pub data_attributes : List DataAttr

abbrev pub add_data : {DateTime : Type 0} → DataAttr → Found DateTime → Found DateTime
add_data attr found = record {
  standard_info = found.standard_info;
  file_names = found.file_names;
  data_attributes = found.data_attributes ++ attr ∷ [];
}

-- Where the extents of a run list put the data.
abbrev pub location_of : List (ℕ × ℕ) → DataLocation
location_of [] = unresolved
location_of (e ∷ []) = contiguous e.0 e.1
location_of (e ∷ (f ∷ es)) = fragmented (e ∷ (f ∷ es))

module _ {DateTime : Type 0} (timestamp_opt : ℕ → ℕ → Option DateTime) where
  -- The time in the 8 bytes at a position.
  abbrev pub time_at : List ℕ → ℕ → Option DateTime
  time_at value pos = filetime_to_datetime timestamp_opt (le64 value pos)

  pub standard_info_of : List ℕ → StandardInformationAttr DateTime
  standard_info_of value = record {
    created = time_at value 0;
    modified = time_at value 8;
    mft_modified = time_at value 16;
    accessed = time_at value 24;
    dos_flags = le32 value 32;
  }

  pub file_name_of : List ℕ → FileNameAttr DateTime
  file_name_of value = record {
    parent_mft_ref = le64 value 0 % 2 ^ 48;
    created = time_at value 8;
    modified = time_at value 16;
    mft_modified = time_at value 24;
    accessed = time_at value 32;
    allocated_size = le64 value 40;
    real_size = le64 value 48;
    namespace = get_or value 65 0;
    name = from_utf16_lossy (u16_chars value 66 (get_or value 64 0));
  }

  -- The value of a resident attribute: a standard information, a name or data.
  unfoldable pub add_resident : ℕ → List ℕ → List ℕ → Found DateTime → Found DateTime
  unfolding standard_info_of file_name_of
  add_resident attr_type attr_name value found =
      let size = length value in
      if attr_type == 16 && leb 36 size
      then record {
        standard_info = some (standard_info_of value);
        file_names = found.file_names;
        data_attributes = found.data_attributes;
      }
      else if attr_type == 48 && leb 66 size && leb (66 + get_or value 64 0 * 2) size
      then record {
        standard_info = found.standard_info;
        file_names = found.file_names ++ file_name_of value ∷ [];
        data_attributes = found.data_attributes;
      }
      else if attr_type == 128
      then add_data
          (record {
            name = attr_name;
            is_non_resident = false;
            allocated_size = size;
            real_size = size;
            location = resident value;
          })
          found
      else found

-- Data whose run list is well formed; other run lists add nothing.
unfoldable pub add_non_resident :
    {DateTime : Type 0}
    → NtfsBoot
    → ℕ
    → (DataLocation → DataAttr)
    → List ℕ
    → Found DateTime
    → Found DateTime
add_non_resident boot attr_type attr_at runlist found = elim (decode_data_runs runlist boot) [
  | some r ↦ elim r [
    | ok extents ↦
        if attr_type == 128 then add_data (attr_at (location_of extents)) found else found
    | err e ↦ found
    | panic ↦ found
  ]
  | none ↦ found
]
