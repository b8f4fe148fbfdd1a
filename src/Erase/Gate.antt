-- ===== src/Erase/Gate.antt =====
-- crates/vajra-erase/src/gate.rs: the two phases that an operator passes before a destructive
-- operation. The fingerprint of the device, the clock and the random identifier are parameters, and so
-- is the standard library's `trim`.
pub mod Authorized
use vajra_forensics_platform.Prelude.{
  Bool, not, Option, none, some, String, str_eq, append_text, if◌then◌else◌, Result, ok, err, ◌>>=◌,
}

-- What the gate reads of `DeviceDescriptor`.
pub record DeviceDescriptor : Type 0 where
  pub path : String
  pub serial : String
  pub is_system_disk : Bool
  pub write_blocker_info : Option String

pub data GateError : Type 0 where
  system_disk_refusal : String → GateError
  write_blocker_refusal : String → GateError
  serial_mismatch : String → String → GateError
  initial_confirmation_rejected : GateError
  pre_exec_confirmation_rejected : GateError
  token_expired : GateError

pub record SanitizationAuthorizationToken : Type 0 where
  pub token_id : String
  pub target_path : String
  pub target_serial : String
  pub target_fingerprint : String
  pub operator_id : String
  pub authorized_at : String

pub record PendingSanitization : Type 0 where
  pub token_id : String
  pub target_path : String
  pub target_serial : String
  pub target_fingerprint : String
  pub operator_id : String
  pub initiated_at : String

unfoldable pub is_some {ℓ} : {A : Type ℓ} → Option A → Bool
is_some none = Bool.false
is_some (some a) = Bool.true

-- `unwrap_or_else` of the fingerprint.
pub fingerprint_or_unknown : Option String → String
fingerprint_or_unknown none = "UNKNOWN_FINGERPRINT"
fingerprint_or_unknown (some f) = f

-- Code that the gate calls: `str::trim` and `fingerprint_device`.
pub record Environment : Type 0 where
  pub trim : String → String
  pub fingerprint_device : DeviceDescriptor → Option String

module _ (env : Environment) where
  -- The ticket of a device.
  pub ticket : DeviceDescriptor → String → String → String → PendingSanitization
  unfolding fingerprint_or_unknown
  ticket device operator_id uuid now = record {
    token_id = append_text "GATE-AUTH-" uuid;
    target_path = device.path;
    target_serial = device.serial;
    target_fingerprint = fingerprint_or_unknown (env.fingerprint_device device);
    operator_id = operator_id;
    initiated_at = now;
  }

  unfoldable pub begin :
      DeviceDescriptor
      → String
      → String
      → Bool
      → String
      → String
      → Result GateError PendingSanitization
  unfolding is_some ticket
  begin device operator_id typed_serial initial_confirm uuid now =
      if device.is_system_disk
      then err (system_disk_refusal device.path)
      else if is_some device.write_blocker_info
      then err (write_blocker_refusal device.path)
      else if not (str_eq (env.trim typed_serial) (env.trim device.serial))
      then err (serial_mismatch device.serial typed_serial)
      else if not initial_confirm
      then err initial_confirmation_rejected
      else ok (ticket device operator_id uuid now)

pub token_of : PendingSanitization → String → SanitizationAuthorizationToken
token_of pending now = record {
  token_id = pending.token_id;
  target_path = pending.target_path;
  target_serial = pending.target_serial;
  target_fingerprint = pending.target_fingerprint;
  operator_id = pending.operator_id;
  authorized_at = now;
}

-- The ticket is consumed by value, so no second call can be made with it.
unfoldable pub finalize :
    PendingSanitization → Bool → String → Result GateError SanitizationAuthorizationToken
unfolding token_of
finalize pending pre_exec_confirm now =
    if not pre_exec_confirm then err pre_exec_confirmation_rejected else ok (token_of pending now)
