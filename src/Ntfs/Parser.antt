-- ===== src/Ntfs/Parser.antt =====
-- crates/vajra-fs-ntfs/src/parser.rs: where the records of the master file table lie, reading one, and
-- the scan over all of them. A device is what its `read_blocks` answers.
pub mod Places
use vajra_forensics_platform.Prelude.{
  ℕ, zero, suc, ◌+◌, ◌-◌, ◌*◌, ◌/◌, max, Bool, true, false, ◌&&◌, Option, none, some, List, [], ◌∷◌,
  ◌++◌, ltb, leb, ◌==◌, if◌then◌else◌, length, u32, u64, Result, ok, err, panic, ◌>>=◌, returned,
}
use vajra_forensics_platform.Raid.Error.{IoError}
use vajra_forensics_platform.Files.{
  DataLocation, resident, contiguous, fragmented, unresolved, RecoverableFileEntry,
}
use vajra_forensics_platform.Ntfs.Boot.{NtfsError, io, NtfsBoot}
use vajra_forensics_platform.Ntfs.Fixup.{has_magic, apply_mft_fixup}
use vajra_forensics_platform.Ntfs.Record.{MftRecord, parse_mft_record}
use vajra_forensics_platform.Ntfs.Entry.{
  head?, display_name, default_data_stream, build_recoverable_entry,
}
use vajra_forensics_platform.Ntfs.Vss.{VssInfo, check_filename}

-- The extents of the table, from its own record; else a guess.
pub mft_extents_of : {DateTime : Type 0} → MftRecord DateTime → ℕ → ℕ → List (ℕ × ℕ)
mft_extents_of mft0 mft_lba sectors_per_record =
    let fallback = (mft_lba, 2048 * sectors_per_record) ∷ [] in
    elim (default_data_stream mft0) [
      | some d ↦ elim d.location [
        | resident bytes ↦ fallback
        | contiguous start_lba block_count ↦ (start_lba, block_count) ∷ []
        | fragmented extents ↦ elim extents [ [] ↦ fallback | e ∷ es ↦ e ∷ es ]
        | unresolved ↦ fallback
      ]
      | none ↦ fallback
    ]

-- Where a record lies: the extents are passed, with the number of the records before each.
pub find_lba : ℕ → ℕ → ℕ → List (ℕ × ℕ) → Option ℕ
find_lba sectors_per_record record_num accumulated [] = none
find_lba sectors_per_record record_num accumulated ((start_lba, block_count) ∷ extents) =
    let next = u64 (accumulated + block_count / sectors_per_record) in
    let rest = find_lba sectors_per_record record_num next extents in
    if leb accumulated record_num && ltb record_num next
    then some (u64 (start_lba + u64 ((record_num - accumulated) * sectors_per_record)))
    else rest

-- The numbers and places of the records of one extent from the `r`th on, `n` of them, and of all
-- extents, in the order of the scan.
pub records_from : ℕ → ℕ → ℕ → ℕ → ℕ → List (ℕ × ℕ)
records_from sectors_per_record start_lba current r zero = []
records_from sectors_per_record start_lba current r (suc n) =
    (u64 (current + r), u64 (start_lba + u64 (r * sectors_per_record)))
    ∷ records_from sectors_per_record start_lba current (r + 1) n

pub scan_from : ℕ → ℕ → List (ℕ × ℕ) → List (ℕ × ℕ)
unfolding records_from
scan_from sectors_per_record current [] = []
scan_from sectors_per_record current ((start_lba, block_count) ∷ extents) =
    let total = block_count / sectors_per_record in
    records_from sectors_per_record start_lba current 0 total
    ++ scan_from sectors_per_record (u64 (current + total)) extents

-- A sector of no bytes makes the division panic.
pub sectors_per_record : NtfsBoot → Result NtfsError ℕ
sectors_per_record boot =
    if boot.bytes_per_sector == 0
    then panic
    else ok (max (boot.mft_record_size / boot.bytes_per_sector) 1)

abbrev pub has_signature : List ℕ → Bool
has_signature bytes = leb 4 (length bytes) && has_magic bytes

-- The error of the device is passed on by `?`.
abbrev pub from_io : Result IoError (List ℕ) → Result NtfsError (List ℕ)
from_io (ok bytes) = ok bytes
from_io (err e) = err (io e)
from_io panic = panic

-- What the scan has found: the names and parents of the records by their number, the entries, and
-- the names of shadow copies.
pub record Scan (DateTime : Type 0) : Type 0 where
  pub record_map : List (ℕ × (List ℕ × ℕ))
  pub results : List (RecoverableFileEntry DateTime)
  pub vss_info : VssInfo

module _ {DateTime : Type 0} (timestamp_opt : ℕ → ℕ → Option DateTime)
    (read_blocks : ℕ → ℕ → Result IoError (List ℕ)) where
  -- The result of the fix-up is dropped: a buffer that it left half done is parsed all the same.
  pub parse_fixed : NtfsBoot → ℕ → List ℕ → Result NtfsError (MftRecord DateTime)
  parse_fixed boot record_num bytes =
      returned (parse_mft_record timestamp_opt record_num (apply_mft_fixup bytes record_num).0 boot)

  pub read_mft_record : NtfsBoot → List (ℕ × ℕ) → ℕ → Result NtfsError (Option (MftRecord DateTime))
  unfolding find_lba sectors_per_record parse_fixed
  read_mft_record boot mft_extents record_num = sectors_per_record boot >>= λ spr.
      elim (find_lba spr record_num 0 mft_extents) [
        | none ↦ ok none
        | some lba ↦ from_io (read_blocks lba (u32 spr)) >>= λ bytes.
            if has_signature bytes
            then (parse_fixed boot record_num bytes >>= λ r. ok (some r))
            else ok none
      ]

  -- A record that was read: its name goes to the map, and its entry to the results.
  pub add_record :
      Option (List ℕ)
      → NtfsBoot
      → ℕ
      → MftRecord DateTime
      → Scan DateTime
      → Result NtfsError (Scan DateTime)
  add_record bitmap boot rec_num r scan = elim (display_name r) [
    | none ↦ ok scan
    | some name ↦
        let parent_ref : ℕ = elim (head? r.file_names) [ none ↦ 0 | some f ↦ f.parent_mft_ref ] in
        build_recoverable_entry bitmap boot r name rec_num false >>= λ entry. ok (record {
          record_map = scan.record_map ++ (rec_num, (name, parent_ref)) ∷ [];
          results = elim entry [ none ↦ scan.results | some e ↦ scan.results ++ e ∷ [] ];
          vss_info = check_filename scan.vss_info name;
        })
  ]

  -- One record of the scan: what cannot be read or parsed is passed over.
  pub scan_record :
      Option (List ℕ) → NtfsBoot → ℕ → ℕ × ℕ → Scan DateTime → Result NtfsError (Scan DateTime)
  unfolding parse_fixed add_record
  scan_record bitmap boot spr (rec_num, rec_lba) scan = elim (read_blocks rec_lba (u32 spr)) [
    | ok bytes ↦
        if has_signature bytes
        then elim (parse_fixed boot rec_num bytes) [
          | ok r ↦ add_record bitmap boot rec_num r scan
          | err e ↦ ok scan
          | panic ↦ panic
        ]
        else ok scan
    | err e ↦ ok scan
    | panic ↦ panic
  ]

  pub scan_records :
      Option (List ℕ)
      → NtfsBoot
      → ℕ
      → List (ℕ × ℕ)
      → Scan DateTime
      → Result NtfsError (Scan DateTime)
  unfolding scan_record
  scan_records bitmap boot spr [] scan = ok scan
  scan_records bitmap boot spr (place ∷ places) scan =
      scan_record bitmap boot spr place scan >>= scan_records bitmap boot spr places

  pub scan_mft_records :
      Option (List ℕ) → NtfsBoot → List (ℕ × ℕ) → Scan DateTime → Result NtfsError (Scan DateTime)
  unfolding scan_from scan_records
  scan_mft_records bitmap boot mft_extents scan = sectors_per_record boot >>= λ spr.
      scan_records bitmap boot spr (scan_from spr 0 mft_extents) scan
