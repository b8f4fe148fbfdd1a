-- ===== src/Ntfs/Record.antt =====
-- crates/vajra-fs-ntfs/src/mft.rs, parse_mft_record: a record and the walk over its attributes.
pub mod Gathered
pub mod Walk
use vajra_forensics_platform.Prelude.{
  ℕ, zero, suc, ◌+◌, ◌-◌, ◌*◌, ◌/◌, ◌%◌, ◌^◌, Bool, true, false, not, ◌&&◌, ◌||◌, Option, none,
  some, List, [], ◌∷◌, ltb, leb, ◌==◌, if◌then◌else◌, length, get_or, slice, le16, le32, le64,
  Result, ok, err, panic, ◌>>=◌,
}
use vajra_forensics_platform.Files.{DataLocation}
use vajra_forensics_platform.Ntfs.Boot.{NtfsError, corrupted_attribute, NtfsBoot}
use vajra_forensics_platform.Ntfs.Text.{u16_chars, from_utf16_lossy}
use vajra_forensics_platform.Ntfs.Attribute.{
  StandardInformationAttr, FileNameAttr, DataAttr, Found, add_resident, add_non_resident,
}

pub record MftRecord (DateTime : Type 0) : Type 0 where
  pub record_num : ℕ
  pub sequence_num : ℕ
  pub is_in_use : Bool
  pub is_directory : Bool
  pub base_record_ref : ℕ
  pub standard_info : Option (StandardInformationAttr DateTime)
  pub file_names : List (FileNameAttr DateTime)
  pub data_attributes : List DataAttr

-- The name of an attribute, where it has one that lies in the record.
pub attr_name_at : List ℕ → ℕ → List ℕ
attr_name_at bytes at =
    let name_len = get_or bytes (at + 9) 0 in
    let name_offset = le16 bytes (at + 10) in
    if ltb 0 name_len && leb (at + name_offset + name_len * 2) (length bytes)
    then from_utf16_lossy (u16_chars bytes (at + name_offset) name_len)
    else []

-- Whether there is an attribute at a position: its header lies in the record, it is no end mark,
-- and its length is not wrong.
pub has_attribute : List ℕ → ℕ → Bool
has_attribute bytes at =
    let attr_type = le32 bytes at in
    let attr_len = le32 bytes (at + 4) in
    leb (at + 16) (length bytes)
    && not (attr_type == 4294967295 || attr_type == 0)
    && not (ltb attr_len 16 || ltb (length bytes) (at + attr_len))

module _ {DateTime : Type 0} (timestamp_opt : ℕ → ℕ → Option DateTime) where
  -- The attribute at a position. A read or a slice outside of the record panics.
  unfoldable pub parse_attribute :
      NtfsBoot → List ℕ → ℕ → Found DateTime → Result NtfsError (Found DateTime)
  unfolding attr_name_at
  parse_attribute boot bytes at found =
      let attr_type = le32 bytes at in
      let attr_len = le32 bytes (at + 4) in
      let attr_name = attr_name_at bytes at in
      let val_start = at + le16 bytes (at + 20) in
      let val_end = val_start + le32 bytes (at + 16) in
      let runlist_offset = le16 bytes (at + 32) in
      let attr_at : DataLocation → DataAttr = λ location. record {
        name = attr_name;
        is_non_resident = true;
        allocated_size = le64 bytes (at + 40);
        real_size = le64 bytes (at + 48);
        location = location;
      } in
      if get_or bytes (at + 8) 0 == 0
      then if ltb (length bytes) (at + 22)
        then panic
        else if leb val_end (length bytes)
        then ok
            (add_resident timestamp_opt attr_type attr_name (slice bytes val_start val_end) found)
        else ok found
      else if leb (at + 64) (length bytes)
      then if leb (at + runlist_offset) (length bytes)
        then if ltb attr_len runlist_offset
          then panic
          else ok (
              add_non_resident boot attr_type attr_at
                (slice bytes (at + runlist_offset) (at + attr_len)) found)
        else ok found
      else ok found

  -- The loop, on fuel: `none` when the fuel does not suffice.
  pub attributes_from :
      ℕ → NtfsBoot → List ℕ → ℕ → Found DateTime → Option (Result NtfsError (Found DateTime))
  unfolding has_attribute parse_attribute
  attributes_from zero boot bytes at found = none
  attributes_from (suc fuel) boot bytes at found =
      let rest = λ (more : Found DateTime).
        attributes_from fuel boot bytes (at + le32 bytes (at + 4)) more in
      if has_attribute bytes at
      then elim (parse_attribute boot bytes at found) [
        | ok more ↦ rest more
        | err e ↦ some (err e)
        | panic ↦ some panic
      ]
      else some (ok found)

  -- The header's fields, with what the attributes gave.
  pub record_of : ℕ → List ℕ → Found DateTime → MftRecord DateTime
  record_of record_num bytes found =
      let flags = le16 bytes 22 in
      record {
        record_num = record_num;
        sequence_num = le16 bytes 16;
        is_in_use = flags % 2 == 1;
        is_directory = flags / 2 % 2 == 1;
        base_record_ref = le64 bytes 32 % 2 ^ 48;
        standard_info = found.standard_info;
        file_names = found.file_names;
        data_attributes = found.data_attributes;
      }

  abbrev pub nothing_found : Found DateTime
  nothing_found = record { standard_info = none; file_names = []; data_attributes = [] }

  -- An attribute takes a byte at least.
  unfoldable pub parse_mft_record :
      ℕ → List ℕ → NtfsBoot → Option (Result NtfsError (MftRecord DateTime))
  unfolding attributes_from record_of
  parse_mft_record record_num bytes boot =
      if ltb (length bytes) 48
      then some (err (corrupted_attribute 0 record_num))
      else elim (attributes_from (length bytes + 1) boot bytes (le16 bytes 20) nothing_found) [
        | some r ↦ some (r >>= λ found. ok (record_of record_num bytes found))
        | none ↦ none
      ]
