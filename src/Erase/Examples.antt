-- ===== src/Erase/Examples.antt =====
-- A drive that may be erased, and the recommendation for another.
use mathlib.Core.List.{[], ◌∷◌}
use vajra_forensics_platform.Prelude.{
  ℕ, zero, suc, ◌+◌, ◌*◌, List, ◌++◌, ap, sym, take, drop, length, ok_injective, arith,
}
use vajra_forensics_platform.Erase.Assurance.{Source}
use vajra_forensics_platform.Erase.Overwrite.{Target}
use vajra_forensics_platform.Erase.Overwrite.Covers.{IsStorage}
use vajra_forensics_platform.Erase.Methods.{execute_sanitization_destructive}
use vajra_forensics_platform.Erase.Methods.Erased.{
  IsErased, execute_sanitization_destructive-IsErased,
}
use vajra_forensics_platform.Prelude.{◌≡◌, refl, true, false, none, ok, ◌>>=◌}
use vajra_forensics_platform.Erase.Decision.{
  hdd, host_overwrite_multi_pass, sata_ssd, ata_secure_erase, recommend,
}
use vajra_forensics_platform.Erase.Decision.Advice.{IsSound, recommend-IsSound}
use vajra_forensics_platform.Erase.Gate.{
  DeviceDescriptor, Environment, SanitizationAuthorizationToken, begin, finalize,
}
use vajra_forensics_platform.Erase.Gate.Authorized.{MayErase, finalize-begin}

abbrev env : Environment
env = record { trim = λ s. s; fingerprint_device = λ device. none }

abbrev drive : DeviceDescriptor
drive = record {
  path = "/dev/sdb";
  serial = "S1";
  is_system_disk = false;
  write_blocker_info = none;
}

abbrev minted : SanitizationAuthorizationToken
minted = record {
  token_id = "GATE-AUTH-7";
  target_path = "/dev/sdb";
  target_serial = "S1";
  target_fingerprint = "UNKNOWN_FINGERPRINT";
  operator_id = "op";
  authorized_at = "later";
}

both_phases :
    (begin env drive "op" "S1" true "7" "now" >>= λ pending. finalize pending true "later")
    ≡ ok minted
unfolding begin finalize
both_phases = refl

finalize-begin_example :
    MayErase env drive "S1"
    × (true ≡ true)
    × (true ≡ true)
    × (minted.target_path ≡ drive.path)
    × (minted.target_serial ≡ drive.serial)
    × (minted.operator_id ≡ "op")
finalize-begin_example =
    finalize-begin env drive "op" "S1" true true "7" "now" "later" minted both_phases

recommend-IsSound_example :
    IsSound sata_ssd (ata_secure_erase ∷ []) (recommend sata_ssd (ata_secure_erase ∷ []))
recommend-IsSound_example = recommend-IsSound sata_ssd (ata_secure_erase ∷ [])

-- A device of three blocks of two bytes, whose writes always succeed, and a generator of ascending
-- bytes.
abbrev store : Target (List ℕ)
store = record {
  total_blocks = 3;
  block_size = 2;
  write_blocks = λ device lba bytes.
      ok (take (lba * 2) device ++ (bytes ++ drop (lba * 2 + length bytes) device));
  issue_sanitize = λ device method. ok device;
}

store-IsStorage : IsStorage store (λ device. device)
store-IsStorage = record { written = λ device after lba bytes e. sym (ok_injective e) }

abbrev ascending : ℕ → ℕ → List ℕ
ascending start zero = []
ascending start (suc n) = start ∷ ascending (start + 1) n

length-ascending : (start n : ℕ) → length (ascending start n) ≡ n
length-ascending start zero = refl
length-ascending start (suc n) = ap suc (length-ascending (start + 1) n)

abbrev bytes_from : ℕ → ℕ → List ℕ × ℕ
bytes_from start n = (ascending start n, start + n)

execute_sanitization_destructive-IsErased_example :
    IsErased store bytes_from
      (λ pass. pass)
      (λ device. device)
      store-IsStorage
      length-ascending
      (execute_sanitization_destructive store bytes_from
        (λ pass. pass)
        (host_overwrite_multi_pass 3)
        (9 ∷ 8 ∷ 7 ∷ 6 ∷ 5 ∷ 4 ∷ []))
execute_sanitization_destructive-IsErased_example =
    execute_sanitization_destructive-IsErased store bytes_from (λ pass. pass) (λ device. device)
      store-IsStorage length-ascending (host_overwrite_multi_pass 3) (9 ∷ 8 ∷ 7 ∷ 6 ∷ 5 ∷ 4 ∷ [])
      (omega arith) refl

-- A magnetic disk of four blocks of two zeros each.
abbrev wiped_disk : Source
wiped_disk = record {
  total_blocks = 4;
  block_size = 2;
  media_type = hdd;
  read_blocks = λ lba count. ok (0 ∷ 0 ∷ []);
}
