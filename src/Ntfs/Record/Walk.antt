-- ===== src/Ntfs/Record/Walk.antt =====
-- The walk of parse_mft_record of mft.rs over the attributes of a record, as a relation.
use vajra_forensics_platform.Prelude.{
  ℕ, ◌+◌, ◌/◌, ◌%◌, ◌^◌, ◌≤◌, ◌<◌, ◌≡◌, ◌≢◌, ◌↔◌, none, [], le64, ◌⊎◌, true, Option, some, List,
  length, get_or, le16, le32, ok, panic,
}
use vajra_forensics_platform.Ntfs.Boot.{NtfsBoot}
use vajra_forensics_platform.Ntfs.Attribute.{Found}
use vajra_forensics_platform.Ntfs.Record.Gathered.{Adds}
use vajra_forensics_platform.Ntfs.Record.{MftRecord, attributes_from, parse_mft_record}

-- There is an attribute at a position: its header lies in the record, its type is no end mark, and
-- its length covers the header and ends in the record.
abbrev pub IsAttribute : List ℕ → ℕ → Type 0
IsAttribute bytes at =
    (at + 16 ≤ length bytes)
    × (le32 bytes at ≢ 4294967295)
    × (le32 bytes at ≢ 0)
    × (16 ≤ le32 bytes (at + 4))
    × (at + le32 bytes (at + 4) ≤ length bytes)

-- The positions that the walk comes to from a position on.
pub data Reaches (bytes : List ℕ) : ℕ → ℕ → Type 0 where
  here : (at : ℕ) → Reaches bytes at at
  next :
      (at target : ℕ)
      → IsAttribute bytes at
      → Reaches bytes (at + le32 bytes (at + 4)) target
      → Reaches bytes at target

-- Attributes that the code reads or slices outside of the record: a resident one whose header is
-- cut by the end of the record, and another one whose run list starts behind its end.
pub CutsHeader : List ℕ → ℕ → Type 0
CutsHeader bytes at = (get_or bytes (at + 8) 0 ≡ 0) × (length bytes < at + 22)

pub SkipsEnd : List ℕ → ℕ → Type 0
SkipsEnd bytes at =
    (0 < get_or bytes (at + 8) 0)
    × (at + 64 ≤ length bytes)
    × (at + le16 bytes (at + 32) ≤ length bytes)
    × (le32 bytes (at + 4) < le16 bytes (at + 32))

-- The walk comes to such an attribute.
pub Fails : List ℕ → ℕ → Type 0
Fails bytes at =
    (target : ℕ) × Reaches bytes at target
    × IsAttribute bytes target
    × (CutsHeader bytes target ⊎ SkipsEnd bytes target)

module _ {DateTime : Type 0} (timestamp_opt : ℕ → ℕ → Option DateTime) where
  -- What the attributes from a position on give, each of them behind those before it.
  pub data Gathers (boot : NtfsBoot) (bytes : List ℕ)
      : ℕ → Found DateTime → Found DateTime → Type 0 where
    gathers_end :
        (at : ℕ) (found : Found DateTime)
        → (IsAttribute bytes at → ⊥)
        → Gathers boot bytes at found found
    gathers_next :
        (at : ℕ) (found more all : Found DateTime)
        → IsAttribute bytes at
        → Adds timestamp_opt boot bytes at found more
        → Gathers boot bytes (at + le32 bytes (at + 4)) more all
        → Gathers boot bytes at found all

  -- The fields of a record that stand in its header.
  pub record HasHeader (r : MftRecord DateTime) (record_num : ℕ) (bytes : List ℕ) : Type 0 where
    pub numbered : r.record_num ≡ record_num
    pub sequence : r.sequence_num ≡ le16 bytes 16
    pub in_use : (r.is_in_use ≡ true) ↔ (le16 bytes 22 % 2 ≡ 1)
    pub directory : (r.is_directory ≡ true) ↔ (le16 bytes 22 / 2 % 2 ≡ 1)
    pub base : r.base_record_ref ≡ le64 bytes 32 % 2 ^ 48

  -- A record that was parsed, with its header and with what its attributes give.
  abbrev pub IsParsed : ℕ → List ℕ → NtfsBoot → Type 0
  IsParsed record_num bytes boot =
      (r : MftRecord DateTime) × (parse_mft_record timestamp_opt record_num bytes boot
        ≡ some (ok r))
      × HasHeader r record_num bytes
      × Gathers boot bytes (le16 bytes 20)
          (record { standard_info = none; file_names = []; data_attributes = [] })
          (record {
            standard_info = r.standard_info;
            file_names = r.file_names;
            data_attributes = r.data_attributes;
          })

  -- The walk panics at a bad attribute, and else gives what it found.
  Walked : ℕ → NtfsBoot → List ℕ → ℕ → Found DateTime → Type 0
  Walked fuel boot bytes at found =
      (Fails bytes at × (attributes_from timestamp_opt fuel boot bytes at found ≡ some panic))
      ⊎ ((Fails bytes at → ⊥)
          × ((more : Found DateTime) × (attributes_from timestamp_opt fuel boot bytes at found
                ≡ some (ok more))
              × Gathers boot bytes at found more))
