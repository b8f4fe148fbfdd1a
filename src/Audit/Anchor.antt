-- ===== src/Audit/Anchor.antt =====
-- crates/vajra-audit/src/anchor.rs: checkpoints of the head of the log on other media. Writing and
-- reading the file, and its JSON form, are left out. Keys, signatures, hex and the decimal form of a
-- number are parameters.
pub mod History
use vajra_forensics_platform.Prelude.{
  ℕ, Bool, true, not, Option, none, some, List, [], ◌∷◌, String, append_text, str_eq, ◌==◌,
  if◌then◌else◌, find, Result, ok, err, ◌>>=◌,
}
use vajra_forensics_platform.Audit.Entry.{AuditEntry, Hasher}
use vajra_forensics_platform.Audit.Table.{AuditLogRecord}
use vajra_forensics_platform.Audit.Chain.{
  AuditError, anchor_mismatch, invalid_signature, EntryJson, last_of, load_entries,
}

pub record AnchorCheckpoint : Type 0 where
  pub case_id : String
  pub sequence : ℕ
  pub chain_head_hash : String
  pub timestamp_utc : String
  pub operator_id : String
  pub public_key_hex : String
  pub signature_hex : String
  pub certificate_pem : Option String
  pub trusted_timestamp : Option String

pub record AnchorVerificationReport : Type 0 where
  pub case_id : String
  pub anchored_sequence : ℕ
  pub anchored_hash : String
  pub is_signature_valid : Bool
  pub is_chain_consistent : Bool

-- The key pair of an operator, `verify_signature`, and hex.
pub record Pki : Type 0 where
  pub to_decimal : ℕ → String
  pub sign_hex : String → String
  pub public_key_hex : String
  pub generate_self_signed_cert : String → Option String
  pub decode_hex : String → Option (List ℕ)
  pub verify_signature : List ℕ → String → List ℕ → Result AuditError Bool

module _ (h : Hasher) (pki : Pki) (json : EntryJson) where
  pub payload_for_signing : String → ℕ → String → String → String → String
  payload_for_signing case_id sequence chain_head_hash timestamp_utc operator_id =
      let field = λ (text value : String). append_text (append_text text ":") value in
      field
        (field
          (field (field (field "VAJRA_ANCHOR_V1" case_id) (pki.to_decimal sequence))
            chain_head_hash)
          timestamp_utc)
        operator_id

  unfoldable pub checkpoint_of : String → String → String → AuditEntry → AnchorCheckpoint
  unfolding payload_for_signing
  checkpoint_of now case_id operator_id latest =
      let seq = latest.payload.seq in
      record {
        case_id = case_id;
        sequence = seq;
        chain_head_hash = latest.entry_hash;
        timestamp_utc = now;
        operator_id = operator_id;
        public_key_hex = pki.public_key_hex;
        signature_hex =
            pki.sign_hex (payload_for_signing case_id seq latest.entry_hash now operator_id);
        certificate_pem = pki.generate_self_signed_cert operator_id;
        trusted_timestamp = none;
      }

  abbrev pub anchor_of :
      String → String → String → List AuditEntry → Result AuditError AnchorCheckpoint
  anchor_of now case_id operator_id [] =
      err (invalid_signature "Cannot export anchor for an empty audit log")
  anchor_of now case_id operator_id (e ∷ es) =
      ok (checkpoint_of now case_id operator_id (last_of e es))

  unfoldable pub export_anchor :
      String → String → String → List AuditLogRecord → Result AuditError AnchorCheckpoint
  unfolding load_entries checkpoint_of last_of
  export_anchor now case_id operator_id rows =
      load_entries h json rows >>= anchor_of now case_id operator_id

  pub decoded : String → String → Result AuditError (List ℕ)
  decoded message text = elim (pki.decode_hex text) [
    | none ↦ err (invalid_signature message)
    | some bytes ↦ ok bytes
  ]

  pub check_signature : AnchorCheckpoint → Result AuditError Bool
  unfolding decoded payload_for_signing
  check_signature checkpoint = do
    pk_bytes ← decoded "Malformed public key hex" checkpoint.public_key_hex
    sig_bytes ← decoded "Malformed signature hex" checkpoint.signature_hex
    pki.verify_signature pk_bytes
        (payload_for_signing checkpoint.case_id checkpoint.sequence checkpoint.chain_head_hash
          checkpoint.timestamp_utc checkpoint.operator_id)
        sig_bytes

  pub inspect : AnchorCheckpoint → List AuditEntry → Result AuditError AnchorVerificationReport
  inspect checkpoint entries =
      elim (find (λ (e : AuditEntry). e.payload.seq == checkpoint.sequence) entries) [
        | none ↦ err (
            anchor_mismatch checkpoint.sequence "<DELETED / MISSING IN LIVE CHAIN>"
              checkpoint.chain_head_hash)
        | some live_entry ↦
            if not (str_eq live_entry.entry_hash checkpoint.chain_head_hash)
            then err (
                anchor_mismatch checkpoint.sequence live_entry.entry_hash
                  checkpoint.chain_head_hash)
            else ok (record {
              case_id = checkpoint.case_id;
              anchored_sequence = checkpoint.sequence;
              anchored_hash = checkpoint.chain_head_hash;
              is_signature_valid = true;
              is_chain_consistent = true;
            })
      ]

  unfoldable pub verify_anchor :
      AnchorCheckpoint → List AuditLogRecord → Result AuditError AnchorVerificationReport
  unfolding check_signature load_entries inspect
  verify_anchor checkpoint rows = check_signature checkpoint >>= λ sig_ok.
      if not sig_ok
      then err (invalid_signature "Anchor checkpoint cryptographic signature is INVALID")
      else load_entries h json rows >>= inspect checkpoint
