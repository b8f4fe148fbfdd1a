-- ===== src/Erase/Methods.antt =====
-- crates/vajra-erase/src/methods/mod.rs and hardware.rs: carrying out a method.
pub mod Erased
use vajra_forensics_platform.Prelude.{
  ℕ, zero, suc, ◌+◌, ◌%◌, List, [], ◌∷◌, ◌++◌, ◌==◌, if◌then◌else◌, Result, ok, ◌>>=◌,
}
use vajra_forensics_platform.Erase.Decision.{
  SanitizeMethod, ata_secure_erase, ata_enhanced_secure_erase, nvme_sanitize_block,
  nvme_sanitize_crypto, nvme_format, cryptographic_erase, host_overwrite_single_pass,
  host_overwrite_multi_pass, scsi_sanitize_overwrite, scsi_sanitize_crypto,
}
use vajra_forensics_platform.Erase.Overwrite.{
  EraseError, OverwritePattern, zeros, ones, random, Target, Progress, from_io,
  execute_overwrite_pass_destructive,
}

-- The last pass writes zeros, and those before it random bytes and ones by turns.
abbrev pub pattern_of : ℕ → ℕ → OverwritePattern
pattern_of p total = if p == total then zeros else if p % 2 == 1 then random else ones

-- `from_entropy` is the generator that a pass starts with.
module _ {Device Rng : Type 0} (t : Target Device) (fill_bytes : Rng → ℕ → List ℕ × Rng)
    (from_entropy : ℕ → Rng) where
  pub execute_hardware_sanitize_destructive : SanitizeMethod → Device → Result EraseError Device
  execute_hardware_sanitize_destructive method device = from_io (t.issue_sanitize device method)

  -- The passes from `p` on, `n` of them.
  pub passes_from : ℕ → ℕ → ℕ → Device → List Progress → Result EraseError (Device × List Progress)
  passes_from zero p total device told = ok (device, told)
  passes_from (suc n) p total device told =
      execute_overwrite_pass_destructive t fill_bytes (pattern_of p total) p total (from_entropy p)
        device told
      >>= λ done. passes_from n (p + 1) total done.0 done.1

  -- A method of the controller, and the call of `progress` after it.
  abbrev pub by_controller :
      SanitizeMethod → Device → List Progress → Result EraseError (Device × List Progress)
  by_controller method device told =
      execute_hardware_sanitize_destructive method device >>= λ erased. ok (
        erased,
        told
            ++ record {
              pass_number = 1;
              total_passes = 1;
              blocks_done = t.total_blocks;
              blocks_total = t.total_blocks;
            }
              ∷ [],
      )

  unfoldable pub execute_sanitization_destructive :
      SanitizeMethod → Device → Result EraseError (Device × List Progress)
  unfolding execute_hardware_sanitize_destructive passes_from
  execute_sanitization_destructive host_overwrite_single_pass device =
      execute_overwrite_pass_destructive t fill_bytes zeros 1 1 (from_entropy 1) device []
  execute_sanitization_destructive (host_overwrite_multi_pass passes) device =
      passes_from passes 1 passes device []
  execute_sanitization_destructive method device = by_controller method device []
