-- ===== src/Audit/Chain.antt =====
-- crates/vajra-audit/src/chain.rs: appending to the audit log and verifying it. The clock, and the
-- JSON writer and reader of a whole entry, are parameters.
pub mod Sound
pub mod Tamper
pub mod Log
pub mod Runs
use vajra_forensics_platform.Prelude.{
  ℕ, ◌+◌, Bool, true, not, Option, none, some, List, [], ◌∷◌, String, str_eq, u64, ◌==◌,
  if◌then◌else◌, length, Result, ok, err, ◌>>=◌,
}
use vajra_forensics_platform.Audit.Entry.{
  AuditEntry, HashablePayload, Hasher, genesis_prev_hash, calculate_hash, new_entry,
  verify_integrity,
}
use vajra_forensics_platform.Audit.Table.{AuditLogRecord, append_audit_log, get_latest_audit_entry}

-- The errors of the chain and of anchors; those of files are left out, and of those of the database
-- all but that of the key.
pub data AuditError : Type 0 where
  chain_broken_at_seq : ℕ → String → String → AuditError
  hash_mismatch_at_seq : ℕ → String → String → AuditError
  sequence_gap : ℕ → ℕ → AuditError
  anchor_mismatch : ℕ → String → String → AuditError
  invalid_signature : String → AuditError
  db : AuditError
  serialization : AuditError

pub record ChainReport : Type 0 where
  pub total_entries : ℕ
  pub first_seq : ℕ
  pub latest_seq : ℕ
  pub latest_hash : String
  pub is_valid : Bool

-- The JSON form of an entry: `serde_json::to_string` and `serde_json::from_str`.
pub record EntryJson : Type 0 where
  pub encode : AuditEntry → Option String
  pub decode : String → Option AuditEntry

-- The payload of an event, which still lacks its sequence number.
abbrev pub event : String → String → String → String → String → String → ℕ → HashablePayload
event now case_id operator_id operation target result seq = record {
  seq = seq;
  timestamp_utc = now;
  operator_id = operator_id;
  case_id = case_id;
  operation = operation;
  target_descriptor = target;
  result = result;
}

-- `entries.last().unwrap()` of the entries after `e`.
unfoldable pub last_of : AuditEntry → List AuditEntry → AuditEntry
last_of e [] = e
last_of e (f ∷ fs) = last_of f fs

-- The row that an entry is stored in.
unfoldable pub row_of : AuditEntry → String → AuditLogRecord
row_of e text = record {
  seq = e.payload.seq;
  entry_json = text;
  entry_hash = e.entry_hash;
  prev_hash = e.prev_hash;
}

module _ (h : Hasher) where
  -- The loop of `verify_entries` at index `i`.
  pub verify_from : ℕ → String → List AuditEntry → Result AuditError Bool
  unfolding verify_integrity calculate_hash
  verify_from i expected_prev [] = ok true
  verify_from i expected_prev (e ∷ es) =
      let rest = verify_from (i + 1) e.entry_hash es in
      let seq = e.payload.seq in
      if not (seq == u64 (i + 1))
      then err (sequence_gap (u64 (i + 1)) seq)
      else if not (str_eq e.prev_hash expected_prev)
      then err (chain_broken_at_seq seq expected_prev e.prev_hash)
      else if not (verify_integrity h e)
      then err (hash_mismatch_at_seq seq (calculate_hash h e.payload e.prev_hash) e.entry_hash)
      else rest

  unfoldable pub verify_entries : List AuditEntry → Result AuditError ChainReport
  unfolding verify_from last_of
  verify_entries [] = ok (record {
    total_entries = 0;
    first_seq = 0;
    latest_seq = 0;
    latest_hash = genesis_prev_hash;
    is_valid = true;
  })
  verify_entries (e ∷ es) = do
    checked ← verify_from 0 genesis_prev_hash (e ∷ es)
    ok (record {
      total_entries = length (e ∷ es);
      first_seq = e.payload.seq;
      latest_seq = (last_of e es).payload.seq;
      latest_hash = (last_of e es).entry_hash;
      is_valid = true;
    })

  module _ (json : EntryJson) where
    -- What `append` gives `AuditEntry::new`, from the head of the log.
    pub next_entry : (ℕ → HashablePayload) → List AuditLogRecord → AuditEntry
    unfolding new_entry get_latest_audit_entry
    next_entry payload rows = elim (get_latest_audit_entry rows) [
      | none ↦ new_entry h (payload 1) genesis_prev_hash
      | some latest ↦ new_entry h (payload (u64 (latest.seq + 1))) latest.entry_hash
    ]

    unfoldable pub append :
        String
        → String
        → String
        → String
        → String
        → String
        → List AuditLogRecord
        → Result AuditError (AuditEntry × List AuditLogRecord)
    unfolding next_entry append_audit_log
    append now case_id operator_id operation target result rows =
        let entry = next_entry (event now case_id operator_id operation target result) rows in
        elim (json.encode entry) [
          | none ↦ err serialization
          | some text ↦ elim (append_audit_log (row_of entry text) rows) [
            | none ↦ err db
            | some table ↦ ok (entry, table)
          ]
        ]

    unfoldable pub load_entries : List AuditLogRecord → Result AuditError (List AuditEntry)
    load_entries [] = ok []
    load_entries (r ∷ rs) = elim (json.decode r.entry_json) [
      | none ↦ err serialization
      | some e ↦ load_entries rs >>= λ es. ok (e ∷ es)
    ]

    pub verify_db : List AuditLogRecord → Result AuditError ChainReport
    unfolding load_entries verify_entries
    verify_db rows = load_entries rows >>= verify_entries
