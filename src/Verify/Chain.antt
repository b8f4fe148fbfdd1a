-- ===== src/Verify/Chain.antt =====
-- crates/vajra-verify/src/models.rs and src/verifier.rs: the entries of a report, and the check of its
-- segment of the audit chain.
pub mod Agrees
use vajra_forensics_platform.Prelude.{
  ℕ, ◌+◌, ltb, not, ◌&&◌, Bool, true, false, List, [], ◌∷◌, String, append_text, str_eq, ◌==◌,
  if◌then◌else◌, u64,
}
use vajra_forensics_platform.Audit.Entry.{HashablePayload, Hasher, genesis_prev_hash}

pub record VjrAuditEntry : Type 0 where
  pub seq : ℕ
  pub timestamp_utc : String
  pub operator_id : String
  pub case_id : String
  pub operation : String
  pub target_descriptor : String
  pub result : String
  pub prev_hash : String
  pub entry_hash : String

-- The check and its message, with what the message tells.
pub data CheckStatus : Type 0 where
  pass : CheckStatus
  segment_is_empty : CheckStatus
  sequence_gap : ℕ → ℕ → CheckStatus
  broken_link : ℕ → String → String → CheckStatus
  tampered_entry : ℕ → String → String → CheckStatus
  hash_mismatch : List ℕ → CheckStatus
  malformed_certificate : CheckStatus
  skipped : CheckStatus
  invalid_hex : CheckStatus
  invalid_length : ℕ → CheckStatus
  invalid_key : CheckStatus
  invalid_signature : CheckStatus
  token_is_missing : CheckStatus
  unrecognized_label : CheckStatus
  not_in_manifest : List ℕ → CheckStatus
  read_error : CheckStatus
  open_error : CheckStatus

unfoldable pub is_pass : CheckStatus → Bool
is_pass pass = true
is_pass status = false

abbrev pub hashable_payload : VjrAuditEntry → HashablePayload
hashable_payload entry = record {
  seq = entry.seq;
  timestamp_utc = entry.timestamp_utc;
  operator_id = entry.operator_id;
  case_id = entry.case_id;
  operation = entry.operation;
  target_descriptor = entry.target_descriptor;
  result = entry.result;
}

module _ (h : Hasher) where
  pub compute_independent_entry_hash : VjrAuditEntry → String
  compute_independent_entry_hash entry =
      h.sha256_hex
        (append_text (append_text (h.to_json (hashable_payload entry)) "||") entry.prev_hash)

  -- The loop at index `i`, with the number and the hash of the entry before.
  pub chain_from : ℕ → ℕ → String → List VjrAuditEntry → CheckStatus
  unfolding compute_independent_entry_hash
  chain_from i last_seq expected_prev [] = pass
  chain_from i last_seq expected_prev (entry ∷ entries) =
      let rest = chain_from (i + 1) entry.seq entry.entry_hash entries in
      let computed = compute_independent_entry_hash entry in
      if not (entry.seq == u64 (i + 1)) && (ltb 0 i && not (entry.seq == u64 (last_seq + 1)))
      then sequence_gap (u64 (i + 1)) entry.seq
      else if ltb 0 i && not (str_eq entry.prev_hash expected_prev)
      then broken_link entry.seq entry.prev_hash expected_prev
      else if not (str_eq computed entry.entry_hash)
      then tampered_entry entry.seq computed entry.entry_hash
      else rest

  unfoldable pub chain_check : List VjrAuditEntry → CheckStatus
  unfolding chain_from
  chain_check [] = segment_is_empty
  chain_check (entry ∷ entries) = chain_from 0 0 genesis_prev_hash (entry ∷ entries)
