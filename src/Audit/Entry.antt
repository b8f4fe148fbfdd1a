-- ===== src/Audit/Entry.antt =====
-- crates/vajra-audit/src/entry.rs: an audit entry and its hash. The JSON writer and the hex digest
-- are parameters.
use vajra_forensics_platform.Prelude.{ℕ, Bool, String, str_eq}
use Prim.Native.String.{◌++◌ as append}

-- 64 zeros.
abbrev pub genesis_prev_hash : String
genesis_prev_hash = "0000000000000000000000000000000000000000000000000000000000000000"

pub record HashablePayload : Type 0 where
  pub seq : ℕ
  pub timestamp_utc : String
  pub operator_id : String
  pub case_id : String
  pub operation : String
  pub target_descriptor : String
  pub result : String

pub record AuditEntry : Type 0 where
  pub payload : HashablePayload
  pub prev_hash : String
  pub entry_hash : String

-- The code not under this repository that the hash uses: `serde_json::to_string` of the payload, and
-- the hex form of SHA-256.
pub record Hasher : Type 0 where
  pub to_json : HashablePayload → String
  pub sha256_hex : String → String

module _ (h : Hasher) where
  unfoldable pub calculate_hash : HashablePayload → String → String
  calculate_hash payload prev_hash =
      h.sha256_hex (append (append (h.to_json payload) "||") prev_hash)

  unfoldable pub new_entry : HashablePayload → String → AuditEntry
  unfolding calculate_hash
  new_entry payload prev_hash = record {
    payload = payload;
    prev_hash = prev_hash;
    entry_hash = calculate_hash payload prev_hash;
  }

  unfoldable pub verify_integrity : AuditEntry → Bool
  unfolding calculate_hash
  verify_integrity e = str_eq e.entry_hash (calculate_hash e.payload e.prev_hash)
