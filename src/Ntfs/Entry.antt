-- ===== src/Ntfs/Entry.antt =====
-- crates/vajra-fs-ntfs/src/parser.rs, build_recoverable_entry: the entry that a record becomes. The
-- names of a record and its data stream are src/mft.rs.
pub mod Justified
use vajra_forensics_platform.Prelude.{
  ℕ, Bool, true, false, not, ◌&&◌, ◌||◌, Option, none, some, List, [], ◌∷◌, find, ltb, ◌==◌,
  if◌then◌else◌, get_or, length, Result, ok, err, panic, ◌>>=◌,
}
use vajra_forensics_platform.Files.{
  MetadataConfidence, low, partial, confirmed, DataLocation, resident, contiguous, fragmented,
  unresolved, RecoverableFileEntry, ntfs,
}
use vajra_forensics_platform.Ntfs.Boot.{NtfsError, NtfsBoot}
use vajra_forensics_platform.Ntfs.Attribute.{StandardInformationAttr, FileNameAttr, DataAttr}
use vajra_forensics_platform.Ntfs.Bitmap.{evaluate_extents_confidence}
use vajra_forensics_platform.Ntfs.Record.{MftRecord}

-- `or_else` and `and_then` of options, and `map`.
abbrev pub or_else {ℓ} : {A : Type ℓ} → Option A → Option A → Option A
or_else (some a) other = some a
or_else none other = other

abbrev pub and_then {ℓ κ} : {A : Type ℓ} {B : Type κ} → Option A → (A → Option B) → Option B
and_then (some a) f = f a
and_then none f = none

abbrev pub head? {ℓ} : {A : Type ℓ} → List A → Option A
head? [] = none
head? (x ∷ xs) = some x

-- A data attribute without a name.
abbrev pub default_data_stream : {DateTime : Type 0} → MftRecord DateTime → Option DataAttr
default_data_stream r = find (λ d. length d.name == 0) r.data_attributes

-- The confidence in the clusters of a file, from the bitmap where there is one.
pub extents_confidence :
    Option (List ℕ) → NtfsBoot → Bool → List (ℕ × ℕ) → Result NtfsError MetadataConfidence
extents_confidence none boot is_deleted extents = ok partial
extents_confidence (some bitmap) boot is_deleted extents =
    if is_deleted then evaluate_extents_confidence bitmap extents boot else ok confirmed

pub location_confidence :
    Option (List ℕ) → NtfsBoot → Bool → DataLocation → Result NtfsError MetadataConfidence
unfolding extents_confidence
location_confidence bitmap boot is_deleted (resident bytes) = ok confirmed
location_confidence bitmap boot is_deleted (contiguous start_lba block_count) =
    extents_confidence bitmap boot is_deleted ((start_lba, block_count) ∷ [])
location_confidence bitmap boot is_deleted (fragmented extents) =
    extents_confidence bitmap boot is_deleted extents
location_confidence bitmap boot is_deleted unresolved = ok low

abbrev pub location_or_unresolved : Option DataAttr → DataLocation
location_or_unresolved (some d) = d.location
location_or_unresolved none = unresolved

module _ {DateTime : Type 0} where
  -- A Win32 name where there is one, else the first.
  abbrev pub display_name : MftRecord DateTime → Option (List ℕ)
  display_name r =
      let win32 = find (λ f. f.namespace == 1 || f.namespace == 3) r.file_names in
      and_then (or_else win32 (head? r.file_names)) (λ f. some f.name)

  pub entry_of :
      MftRecord DateTime → List ℕ → ℕ → Bool → MetadataConfidence → RecoverableFileEntry DateTime
  entry_of r name record_id is_deleted confidence =
      let std_info = r.standard_info in
      let fn_attr = head? r.file_names in
      let data_stream = default_data_stream r in
      record {
        id = record_id;
        original_path = some (47 ∷ name);
        filename = some name;
        size_bytes =
            or_else (and_then data_stream (λ d. some d.real_size))
              (and_then fn_attr (λ f. some f.real_size));
        created = or_else (and_then std_info (λ s. s.created)) (and_then fn_attr (λ f. f.created));
        modified =
            or_else (and_then std_info (λ s. s.modified)) (and_then fn_attr (λ f. f.modified));
        accessed =
            or_else (and_then std_info (λ s. s.accessed)) (and_then fn_attr (λ f. f.accessed));
        deleted = is_deleted;
        data_location = location_or_unresolved data_stream;
        metadata_confidence = confidence;
        source_filesystem = ntfs;
      }

  -- Metadata of the file system gives no entry: a name with a dollar in one of the first records.
  unfoldable pub build_recoverable_entry :
      Option (List ℕ)
      → NtfsBoot
      → MftRecord DateTime
      → List ℕ
      → ℕ
      → Bool
      → Result NtfsError (Option (RecoverableFileEntry DateTime))
  unfolding location_confidence entry_of
  build_recoverable_entry bitmap boot r name record_id force_deleted =
      let is_deleted = not r.is_in_use || force_deleted in
      if ltb r.record_num 16 && get_or name 0 0 == 36
      then ok none
      else location_confidence bitmap boot is_deleted
          (location_or_unresolved (default_data_stream r))
        >>= λ confidence. ok (some (entry_of r name record_id is_deleted confidence))
