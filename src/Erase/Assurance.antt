-- ===== src/Erase/Assurance.antt =====
-- crates/vajra-erase/src/verify: the five layers that check an erasure, without the texts, status codes
-- and parameters that they report. A block answers every read alike. The size of the sample comes from floating-point arithmetic, its order from the rand crate, and the
-- artifacts from the recovery pipeline of crates/vajra-carve: these three are parameters.
pub mod Uniform
pub mod High
use vajra_forensics_platform.Prelude.{
  ℕ, zero, suc, ◌+◌, min, max, Bool, true, false, not, ◌&&◌, ◌||◌, Option, none, some, List, [],
  ◌∷◌, ltb, leb, ◌==◌, if◌then◌else◌, length, get_or, take, u64, Result, ok, err, panic, ◌>>=◌,
}
use vajra_forensics_platform.Raid.Error.{IoError}
use vajra_forensics_platform.Erase.Decision.{
  MediaType, sata_ssd, nvme, usb, sd_card, SanitizeMethod, host_overwrite_single_pass,
  host_overwrite_multi_pass, is_media,
}
use vajra_forensics_platform.Erase.Overwrite.{EraseError}

pub data OverallAssurance : Type 0 where
  high : OverallAssurance
  medium : OverallAssurance
  low : OverallAssurance
  failed : OverallAssurance

-- `ReadOnlyBlockSource`.
pub record Source : Type 0 where
  pub total_blocks : ℕ
  pub block_size : ℕ
  pub media_type : MediaType
  pub read_blocks : ℕ → ℕ → Result IoError (List ℕ)

pub record Layer3Result : Type 0 where
  pub passed : Bool
  pub verified_sectors_count : ℕ
  pub unverified_or_mismatched_count : ℕ

pub record Layer4Result : Type 0 where
  pub passed : Bool
  pub sampled_sectors_count : ℕ
  pub non_conforming_sectors_count : ℕ

pub record MultiLayerVerificationReport : Type 0 where
  pub layer1_passed : Bool
  pub layer2_passed : Bool
  pub layer3 : Layer3Result
  pub layer4 : Layer4Result
  pub layer5_passed : Bool
  pub recovered_artifact_ids : List ℕ
  pub overall_assurance : OverallAssurance

abbrev pub verify_layer1 : Result {0} EraseError Unit → Bool
verify_layer1 (ok a) = true
verify_layer1 (err e) = false
verify_layer1 panic = false

abbrev pub verify_layer2 : Source → Bool
verify_layer2 device = ltb 0 device.total_blocks && ltb 0 device.block_size

-- Whether all bytes are the given one.
pub all_are : ℕ → List ℕ → Bool
all_are first_byte [] = true
all_are first_byte (b ∷ bytes) = b == first_byte && all_are first_byte bytes

-- Whether a block can be read and all its bytes are the same.
pub is_clean : Source → ℕ → Result IoError Bool
unfolding all_are
is_clean device lba = elim (device.read_blocks lba 1) [
  | ok bytes ↦ ok (all_are (get_or bytes 0 0) bytes)
  | err e ↦ ok false
  | panic ↦ panic
]

-- What a block of layer 3 is found to be: none past the end of the device.
pub sample : Source → ℕ → Result IoError (Option Bool)
unfolding is_clean
sample device lba =
    if leb device.total_blocks lba
    then ok none
    else is_clean device lba >>= λ clean. ok (some clean)

-- The counts of clean blocks and of others.
abbrev pub tally : Option Bool → ℕ × ℕ → ℕ × ℕ
tally none counts = counts
tally (some true) counts = (u64 (counts.0 + 1), counts.1)
tally (some false) counts = (counts.0, u64 (counts.1 + 1))

pub count_samples : Source → List ℕ → ℕ × ℕ → Result IoError (ℕ × ℕ)
unfolding sample
count_samples device [] counts = ok counts
count_samples device (lba ∷ lbas) counts =
    sample device lba >>= λ seen. count_samples device lbas (tally seen counts)

pub verify_layer3 : Source → List ℕ → Result IoError Layer3Result
unfolding count_samples
verify_layer3 device sample_lbas = count_samples device sample_lbas (0, 0) >>= λ counts.
    ok (record {
      passed = counts.1 == 0 && ltb 0 counts.0;
      verified_sectors_count = counts.0;
      unverified_or_mismatched_count = counts.1;
    })

-- The loop of layer 4, with the count of blocks that are not clean.
pub count_non_conforming : Source → List ℕ → ℕ → Result IoError ℕ
unfolding is_clean
count_non_conforming device [] count = ok count
count_non_conforming device (lba ∷ lbas) count = is_clean device lba >>= λ clean.
    count_non_conforming device lbas (if clean then count else u64 (count + 1))

-- The blocks of the device.
pub candidates : ℕ → ℕ → List ℕ
candidates start zero = []
candidates start (suc n) = start ∷ candidates (start + 1) n

abbrev pub is_flash : MediaType → Bool
is_flash media =
    is_media media nvme || is_media media sata_ssd || is_media media usb || is_media media sd_card

abbrev pub is_host_overwrite : Option SanitizeMethod → Bool
is_host_overwrite (some host_overwrite_single_pass) = true
is_host_overwrite (some (host_overwrite_multi_pass passes)) = true
is_host_overwrite method = false

abbrev pub resolve : Bool → Bool → Bool → Bool → Bool → Bool → OverallAssurance
resolve l1 l2 l3 l4 l5 capped =
    if not l5
    then failed
    else if not l1
    then failed
    else if l2 && l3 && l4 && l5
    then if capped then medium else high
    else if l3 && l4
    then medium
    else low

-- The result for a device without sectors.
abbrev pub no_sectors : Layer4Result
no_sectors = record { passed = false; sampled_sectors_count = 0; non_conforming_sectors_count = 0 }

-- `raw_sample` is what the formula gives before its bounds, and `shuffle` the random order.
module _ (raw_sample : ℕ → ℕ) (shuffle : List ℕ → List ℕ) where
  pub compute_required_sample_size : ℕ → ℕ
  compute_required_sample_size total_sectors =
      if total_sectors == 0
      then 0
      else min (min (max (raw_sample total_sectors) 10) total_sectors) 50000

  pub sampled_lbas : Source → List ℕ
  unfolding compute_required_sample_size candidates
  sampled_lbas device =
      let all = shuffle (candidates 0 device.total_blocks) in
      take (min (compute_required_sample_size device.total_blocks) (length all)) all

  pub verify_layer4_with_seed : Source → Result IoError Layer4Result
  unfolding sampled_lbas count_non_conforming
  verify_layer4_with_seed device =
      if device.total_blocks == 0
      then ok no_sectors
      else count_non_conforming device (sampled_lbas device) 0 >>= λ count. ok (record {
        passed = count == 0;
        sampled_sectors_count = length (sampled_lbas device);
        non_conforming_sectors_count = count;
      })

  unfoldable pub verify_sanitization_with_seed :
      Source
      → Result {0} EraseError Unit
      → List ℕ
      → Option SanitizeMethod
      → List ℕ
      → Result IoError MultiLayerVerificationReport
  unfolding verify_layer3 verify_layer4_with_seed
  verify_sanitization_with_seed device command_result sample_lbas method artifact_ids =
      let l1 = verify_layer1 command_result in
      let l2 = verify_layer2 device in
      let l5 = length artifact_ids == 0 in
      let capped = is_flash device.media_type && is_host_overwrite method in
      verify_layer3 device sample_lbas >>= λ l3. verify_layer4_with_seed device >>= λ l4.
      ok (record {
        layer1_passed = l1;
        layer2_passed = l2;
        layer3 = l3;
        layer4 = l4;
        layer5_passed = l5;
        recovered_artifact_ids = artifact_ids;
        overall_assurance = resolve l1 l2 l3.passed l4.passed l5 capped;
      })
