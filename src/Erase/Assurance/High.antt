-- ===== src/Erase/Assurance/High.antt =====
-- What a high assurance of crates/vajra-erase/src/verify rests on.
use vajra_forensics_platform.Prelude.{
  ℕ, ◌≤◌, ◌≡◌, ◌⊎◌, min, Option, some, List, [], All, length, Result, ◌≢◌, ok,
}
use vajra_forensics_platform.Erase.Decision.{
  MediaType, nvme, sata_ssd, usb, sd_card, SanitizeMethod, host_overwrite_single_pass,
  host_overwrite_multi_pass,
}
use vajra_forensics_platform.Erase.Overwrite.{EraseError}
use vajra_forensics_platform.Erase.Assurance.Uniform.{IsUniform, IsWiped}
use vajra_forensics_platform.Erase.Assurance.{Source, sampled_lbas}

-- Media with flash behind a controller, and methods that are no overwrite by the host.
abbrev pub IsFlash : MediaType → Type 0
IsFlash media = ((media ≡ nvme) ⊎ (media ≡ sata_ssd)) ⊎ ((media ≡ usb) ⊎ (media ≡ sd_card))

abbrev pub IsNoOverwrite : Option SanitizeMethod → Type 0
IsNoOverwrite method =
    (method ≢ some host_overwrite_single_pass)
    × ((passes : ℕ) → method ≢ some (host_overwrite_multi_pass passes))

module _ (raw_sample : ℕ → ℕ) (shuffle : List ℕ → List ℕ) where
  -- What a report of high assurance rests on.
  abbrev pub IsAssured :
      Source → Result {0} EraseError Unit → List ℕ → Option SanitizeMethod → List ℕ → Type 0
  IsAssured device command_result sample_lbas method artifact_ids =
      (command_result ≡ ok tt)
      × (artifact_ids ≡ [])
      × All (IsWiped device) sample_lbas
      × All (IsUniform device) (sampled_lbas raw_sample shuffle device)
      × (min 10 device.total_blocks ≤ length (sampled_lbas raw_sample shuffle device))
      × (IsFlash device.media_type → IsNoOverwrite method)
