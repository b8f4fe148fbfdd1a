-- ===== src/Ntfs/Examples.antt =====
-- A small volume: a record that is protected, one that is torn, one whose last attribute is cut, a
-- run list, and a bitmap.
use vajra_forensics_platform.Prelude.{
  ℕ, ◌≡◌, refl, true, false, Option, none, some, List, [], ◌∷◌, ◌++◌, replicate, Result, ok, err,
  panic, arith,
}
use vajra_forensics_platform.Files.{contiguous}
use vajra_forensics_platform.Ntfs.Boot.{NtfsError, fixup_failed, NtfsBoot}
use vajra_forensics_platform.Ntfs.Fixup.{has_magic, apply_mft_fixup}
use vajra_forensics_platform.Ntfs.Fixup.Restore.{
  IsRecord, IsRestored, apply_mft_fixup_restores, apply_mft_fixup-torn,
}
use vajra_forensics_platform.Ntfs.Runs.{decode_data_runs}
use vajra_forensics_platform.Ntfs.Runs.Encode.{Run, encode, AreRuns}
use vajra_forensics_platform.Ntfs.Runs.Decode.{decode_data_runs-encode}
use vajra_forensics_platform.Ntfs.Runs.Ends.{IsOutcome, decode_data_runs-ends}
use vajra_forensics_platform.Ntfs.Record.{MftRecord, parse_mft_record}
use vajra_forensics_platform.Ntfs.Entry.Justified.{IsBuilt, build_recoverable_entry-IsJustified}
use vajra_forensics_platform.Ntfs.Parser.{find_lba, scan_from}
use vajra_forensics_platform.Ntfs.Parser.Places.{place_of, find_lba-scan_from}

abbrev boot : NtfsBoot
boot = record {
  partition_start_lba = 10;
  bytes_per_sector = 512;
  sectors_per_cluster = 2;
  total_sectors = 1000;
  mft_start_lcn = 4;
  mft_mirr_start_lcn = 8;
  mft_record_size = 1024;
  index_record_size = 4096;
  serial_number = 1;
}

-- One sector that ends in the given bytes. The signature is 7, 9; the bytes 170, 187 are kept.
abbrev sector_ending : List ℕ → List ℕ
sector_ending end =
    70 ∷ 73 ∷ 76 ∷ 69 ∷ 48 ∷ 0 ∷ 2 ∷ 0 ∷ []
    ++ replicate 40 0
    ++ 7 ∷ 9 ∷ 170 ∷ 187 ∷ []
    ++ replicate 458 1
    ++ end

abbrev protected : List ℕ
protected = sector_ending (7 ∷ 9 ∷ [])

abbrev torn : List ℕ
torn = sector_ending (6 ∷ 9 ∷ [])

protected-IsRecord : IsRecord protected
unfolding has_magic
protected-IsRecord = (omega arith, refl, omega arith, omega arith, omega arith)

torn-IsRecord : IsRecord torn
unfolding has_magic
torn-IsRecord = (omega arith, refl, omega arith, omega arith, omega arith)

apply_mft_fixup_restores_example :
    (fixed : List ℕ) × (apply_mft_fixup protected 5 ≡ (fixed, ok tt))
    × IsRestored 1 1 48 protected fixed
apply_mft_fixup_restores_example =
    apply_mft_fixup_restores protected 5 protected-IsRecord
      (λ k le lt in_buffer. let one : k ≡ 1 = omega arith in rw (one) refl)

apply_mft_fixup-torn_example : (apply_mft_fixup torn 5).1 ≡ err (fixup_failed 5)
apply_mft_fixup-torn_example =
    apply_mft_fixup-torn torn 5 1 torn-IsRecord (omega arith) (omega arith) (omega arith)
      (λ e. ground (arith, e))

-- Five clusters from 100 on, and three before them.
abbrev runs : List Run
runs =
    record { len_bytes = 1; off_bytes = 1; lcn = 100; cluster_count = 5 }
    ∷ record { len_bytes = 1; off_bytes = 2; lcn = 40; cluster_count = 3 }
    ∷ []

runs-AreRuns : AreRuns 0 runs
runs-AreRuns = (
  (
    omega arith,
    omega arith,
    omega arith,
    omega arith,
    omega arith,
    omega arith,
    omega arith,
    omega arith,
    omega arith,
  ),
  (
    (
      omega arith,
      omega arith,
      omega arith,
      omega arith,
      omega arith,
      omega arith,
      omega arith,
      omega arith,
      omega arith,
    ),
    tt,
  ),
)

decode_data_runs-encode_example :
    decode_data_runs (encode 0 runs) boot ≡ some (ok ((210, 10) ∷ (90, 6) ∷ []))
decode_data_runs-encode_example = decode_data_runs-encode boot runs runs-AreRuns

decode_data_runs-ends_example :
    (r : Result NtfsError (List (ℕ × ℕ))) × (decode_data_runs (17 ∷ 5 ∷ 100 ∷ 33 ∷ 1 ∷ []) boot
      ≡ some r)
    × IsOutcome (17 ∷ 5 ∷ 100 ∷ 33 ∷ 1 ∷ []) r
decode_data_runs-ends_example = decode_data_runs-ends boot (17 ∷ 5 ∷ 100 ∷ 33 ∷ 1 ∷ [])

-- Times are pairs of seconds and nanoseconds.
abbrev stamp : ℕ → ℕ → Option (ℕ × ℕ)
stamp secs nanos = some (secs, nanos)

-- A record of 64 bytes whose only attribute is resident and has 16 bytes.
abbrev cut : List ℕ
cut =
    replicate 20 0
    ++ 48 ∷ 0 ∷ []
    ++ replicate 26 0
    ++ 48 ∷ 0 ∷ 0 ∷ 0 ∷ 16 ∷ 0 ∷ 0 ∷ 0 ∷ []
    ++ replicate 8 0

cut_panics : parse_mft_record stamp 3 cut boot ≡ some panic
unfolding parse_mft_record
cut_panics = refl

-- A deleted file in cluster 3, whose bit is not set, and in cluster 4, whose bit is.
abbrev deleted_file : MftRecord (ℕ × ℕ)
deleted_file = record {
  record_num = 40;
  sequence_num = 1;
  is_in_use = false;
  is_directory = false;
  base_record_ref = 0;
  standard_info = none;
  file_names = [];
  data_attributes =
      record {
        name = [];
        is_non_resident = true;
        allocated_size = 2048;
        real_size = 2000;
        location = contiguous 16 4;
      }
      ∷ [];
}

build_recoverable_entry-IsJustified_example : IsBuilt (16 ∷ []) boot deleted_file (97 ∷ []) 40 false
build_recoverable_entry-IsJustified_example =
    build_recoverable_entry-IsJustified (16 ∷ []) boot deleted_file (97 ∷ []) 40 false (omega arith)

find_lba-scan_from_example :
    find_lba 2 5 0 ((100, 8) ∷ (200, 4) ∷ [])
    ≡ place_of 5 (scan_from 2 0 ((100, 8) ∷ (200, 4) ∷ []))
find_lba-scan_from_example = find_lba-scan_from 2 0 5 ((100, 8) ∷ (200, 4) ∷ []) (omega arith)
