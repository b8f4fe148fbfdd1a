-- ===== src/Verify/Envelope.antt =====
-- crates/vajra-verify/src/models.rs and src/verifier.rs: the envelope of a report, and its check. What
-- the check reads byte by byte is a list of bytes. SHA-256, hex and Ed25519 are third-party crates.
pub mod Reads
pub mod Valid
use vajra_forensics_platform.Prelude.{
  ℕ, ◌+◌, Bool, true, false, not, ◌&&◌, Option, none, some, List, [], ◌∷◌, ◌++◌, String, leb, ◌==◌,
  if◌then◌else◌, length, bytes_eq, map, Result, ok, err, panic,
}
use vajra_forensics_platform.Audit.Entry.{Hasher}
use vajra_forensics_platform.Verify.Chain.{
  VjrAuditEntry, CheckStatus, pass, hash_mismatch, malformed_certificate, skipped, invalid_hex,
  invalid_length, invalid_key, invalid_signature, token_is_missing, unrecognized_label,
  not_in_manifest, read_error, open_error, is_pass, chain_check,
}
use vajra_forensics_platform.Verify.Certificate.{
  KeyError, position_of, extract_ed25519_pubkey_from_pem,
}

pub record VjrEvidenceItem : Type 0 where
  pub evidence_id : String
  pub file_name : String
  pub sha256_hash : List ℕ
  pub size_bytes : ℕ

pub record VjrTimestampRecord : Type 0 where
  pub is_rfc3161 : Bool
  pub tsa_url : Option String
  pub timestamp_utc : String
  pub token_der_base64 : Option String
  pub status_label : List ℕ

pub record VjrEnvelope : Type 0 where
  pub report_id : String
  pub case_id : String
  pub report_type : String
  pub title : String
  pub created_at_utc : String
  pub operator_id : String
  pub tool_version : String
  pub build_id : String
  pub content_json : List ℕ
  pub content_markdown : String
  pub content_sha256 : List ℕ
  pub audit_chain_segment : List VjrAuditEntry
  pub signature_hex : List ℕ
  pub signing_cert_pem : List ℕ
  pub certificate_chain_pem : Option String
  pub trusted_timestamp : VjrTimestampRecord
  pub evidence_manifest : List VjrEvidenceItem

pub record VerificationReport : Type 0 where
  pub report_id : String
  pub report_type : String
  pub case_id : String
  pub operator_id : String
  pub overall_valid : Bool
  pub content_hash_check : CheckStatus
  pub digital_signature_check : CheckStatus
  pub certificate_check : CheckStatus
  pub audit_chain_check : CheckStatus
  pub timestamp_check : CheckStatus
  pub evidence_hash_check : Option CheckStatus

-- A file that is opened or not, with the answers of its reader: a buffer, or an error.
pub data EvidenceFile : Type 0 where
  unopened : EvidenceFile
  opened : List (Option (List ℕ)) → EvidenceFile

pub record Crypto (Key : Type 0) : Type 0 where
  pub sha256 : List ℕ → List ℕ
  pub hex_encode : List ℕ → List ℕ
  pub hex_decode : List ℕ → Option (List ℕ)
  pub from_bytes : List ℕ → Option Key
  pub verify : Key → List ℕ → List ℕ → Bool

abbrev pub to_lower : ℕ → ℕ
to_lower b = if leb 65 b && leb b 90 then b + 32 else b

unfoldable pub eq_ignore_ascii_case : List ℕ → List ℕ → Bool
eq_ignore_ascii_case a b = bytes_eq (map to_lower a) (map to_lower b)

abbrev pub is_some {ℓ} : {A : Type ℓ} → Option A → Bool
is_some none = false
is_some (some a) = true

-- "Local timestamp".
abbrev pub local_timestamp : List ℕ
local_timestamp =
    76 ∷ 111 ∷ 99 ∷ 97 ∷ 108 ∷ 32 ∷ 116 ∷ 105 ∷ 109 ∷ 101 ∷ 115 ∷ 116 ∷ 97 ∷ 109 ∷ 112 ∷ []

unfoldable pub ts_check : VjrTimestampRecord → CheckStatus
unfolding position_of
ts_check stamp =
    if stamp.is_rfc3161
    then if is_some stamp.token_der_base64 && is_some stamp.tsa_url then pass else token_is_missing
    else if is_some (position_of stamp.status_label local_timestamp)
    then pass
    else unrecognized_label

-- The bytes up to the empty buffer at the end; `none` after an error.
unfoldable pub stream : List (Option (List ℕ)) → List ℕ → Option (List ℕ)
stream [] seen = some seen
stream (none ∷ answers) seen = none
stream (some [] ∷ answers) seen = some seen
stream (some (b ∷ buffer) ∷ answers) seen = stream answers (seen ++ b ∷ buffer)

unfoldable pub lists : List VjrEvidenceItem → List ℕ → Bool
unfolding eq_ignore_ascii_case
lists [] hash = false
lists (item ∷ items) hash =
    if eq_ignore_ascii_case item.sha256_hash hash then true else lists items hash

module _ {Key : Type 0} (crypto : Crypto Key) where
  unfoldable pub content_hash_check : VjrEnvelope → CheckStatus
  unfolding eq_ignore_ascii_case
  content_hash_check envelope =
      let computed = crypto.hex_encode (crypto.sha256 envelope.content_json) in
      if eq_ignore_ascii_case computed envelope.content_sha256 then pass else hash_mismatch computed

  unfoldable pub signature_of : List ℕ → List ℕ → List ℕ → CheckStatus
  signature_of pubkey_bytes digest sig_bytes =
      if length sig_bytes == 64
      then elim (crypto.from_bytes pubkey_bytes) [
        | none ↦ invalid_key
        | some key ↦ if crypto.verify key digest sig_bytes then pass else invalid_signature
      ]
      else invalid_length (length sig_bytes)

  -- The check of the certificate, and that of the signature under its key.
  unfoldable pub signature_checks :
      Result KeyError (List ℕ) → VjrEnvelope → CheckStatus × CheckStatus
  unfolding signature_of
  signature_checks (ok pubkey_bytes) envelope = (
    pass,
    elim (crypto.hex_decode envelope.signature_hex) [
      | none ↦ invalid_hex
      | some sig_bytes ↦ signature_of pubkey_bytes (crypto.sha256 envelope.content_json) sig_bytes
    ],
  )
  signature_checks (err e) envelope = (malformed_certificate, skipped)
  signature_checks panic envelope = (malformed_certificate, skipped)

  unfoldable pub evidence_check : EvidenceFile → List VjrEvidenceItem → CheckStatus
  unfolding stream lists
  evidence_check unopened items = open_error
  evidence_check (opened answers) items = elim (stream answers []) [
    | none ↦ read_error
    | some bytes ↦
        let computed = crypto.hex_encode (crypto.sha256 bytes) in
        if lists items computed then pass else not_in_manifest computed
  ]

  module _ (h : Hasher) (is_blank : List ℕ → Bool) where
    unfoldable pub verify_report_envelope : VjrEnvelope → Option EvidenceFile → VerificationReport
    unfolding extract_ed25519_pubkey_from_pem signature_checks content_hash_check chain_check
        evidence_check is_pass ts_check
    verify_report_envelope envelope evidence_file =
        let content = content_hash_check envelope in
        let pubkey_res = extract_ed25519_pubkey_from_pem is_blank envelope.signing_cert_pem in
        let checks = signature_checks pubkey_res envelope in
        let chain = chain_check h envelope.audit_chain_segment in
        let stamp = ts_check envelope.trusted_timestamp in
        let evidence : Option CheckStatus = elim evidence_file [
          | none ↦ none
          | some file ↦ some (evidence_check file envelope.evidence_manifest)
        ] in
        let evidence_passes : Bool = elim evidence [ none ↦ true | some status ↦ is_pass status ] in
        record {
          report_id = envelope.report_id;
          report_type = envelope.report_type;
          case_id = envelope.case_id;
          operator_id = envelope.operator_id;
          overall_valid =
              is_pass content
              && is_pass checks.1
              && is_pass checks.0
              && is_pass chain
              && is_pass stamp
              && evidence_passes;
          content_hash_check = content;
          digital_signature_check = checks.1;
          certificate_check = checks.0;
          audit_chain_check = chain;
          timestamp_check = stamp;
          evidence_hash_check = evidence;
        }
