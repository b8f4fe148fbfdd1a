-- ===== src/Erase/Gate/Authorized.antt =====
-- Who gets a token from the two phases of gate.rs, and for which device.
use vajra_forensics_platform.Prelude.{
  ◌≡◌, sym, ap, ◌∙◌, Bool, true, false, String, eq_iff, ok, ◌>>=◌, bind-ok, arith,
}
use vajra_forensics_platform.Erase.Gate.{
  DeviceDescriptor, Environment, PendingSanitization, SanitizationAuthorizationToken, ticket,
  token_of, begin, finalize, is_some,
}

-- What must hold of the device and of what the operator typed.
pub record MayErase (env : Environment) (device : DeviceDescriptor) (typed_serial : String)
    : Type 0 where
  pub no_system_disk : device.is_system_disk ≡ false
  pub no_write_blocker : is_some device.write_blocker_info ≡ false
  pub serial_typed : env.trim typed_serial ≡ env.trim device.serial

module _ (env : Environment) where
  begin_sound :
      (device : DeviceDescriptor) (operator_id typed_serial : String) (initial_confirm : Bool)
      (uuid now : String) (pending : PendingSanitization)
      → begin env device operator_id typed_serial initial_confirm uuid now ≡ ok pending
      → MayErase env device typed_serial
        × (initial_confirm ≡ true)
        × (ticket env device operator_id uuid now ≡ pending)
  unfolding begin
  begin_sound device operator_id typed_serial initial_confirm uuid now pending h = (
    record {
      no_system_disk = ground (arith, h);
      no_write_blocker = ground (arith, h);
      serial_typed =
          (eq_iff (env.trim typed_serial) (env.trim device.serial)).0 (ground (arith, h));
    },
    ground (arith, h),
    ground (arith, h),
  )

  finalize_sound :
      (pending : PendingSanitization) (pre_exec_confirm : Bool) (now : String)
      (token : SanitizationAuthorizationToken)
      → finalize pending pre_exec_confirm now ≡ ok token
      → (pre_exec_confirm ≡ true) × (token_of pending now ≡ token)
  unfolding finalize
  finalize_sound pending pre_exec_confirm now token h = (ground (arith, h), ground (arith, h))

  -- A token is minted only after both confirmations, for a device that is no system disk and has
  -- no write blocker, when the typed serial number is that of the device up to surrounding
  -- blanks; it names the path and the serial number of that device and the operator of the first
  -- phase.
  pub finalize-begin :
      (device : DeviceDescriptor) (operator_id typed_serial : String)
      (initial_confirm pre_exec_confirm : Bool) (uuid now later : String)
      (token : SanitizationAuthorizationToken)
      → (begin env device operator_id typed_serial initial_confirm uuid now >>= λ pending.
          finalize pending pre_exec_confirm later)
        ≡ ok token
      → MayErase env device typed_serial
        × (initial_confirm ≡ true)
        × (pre_exec_confirm ≡ true)
        × (token.target_path ≡ device.path)
        × (token.target_serial ≡ device.serial)
        × (token.operator_id ≡ operator_id)
  unfolding ticket token_of
  finalize-begin device operator_id typed_serial initial_confirm pre_exec_confirm uuid now later
        token h =
      let (pending, began, ended) =
        bind-ok (begin env device operator_id typed_serial initial_confirm uuid now) _ token h in
      let (may, first, made) =
        begin_sound device operator_id typed_serial initial_confirm uuid now pending began in
      let (second, minted) = finalize_sound pending pre_exec_confirm later token ended in
      let same : token_of (ticket env device operator_id uuid now) later ≡ token =
        ap (λ p. token_of p later) made ∙ minted in
      (
        may,
        first,
        second,
        sym (ap (λ t. t.target_path) same),
        sym (ap (λ t. t.target_serial) same),
        sym (ap (λ t. t.operator_id) same),
      )
