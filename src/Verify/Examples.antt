-- ===== src/Verify/Examples.antt =====
-- A segment of two entries under a hash that keeps what it is given, and a text of RFC 4648.
use vajra_forensics_platform.Prelude.{
  ℕ, zero, suc, ◌<◌, ◌≡◌, ◌↔◌, refl, Bool, true, false, Option, none, some, List, [], ◌∷◌, ◌++◌,
  All, ◌==◌, length, drop, replicate, bytes_eq, ltb, take, if◌then◌else◌, inl, inr, Option-cases,
  map, String, append_text, ok, arith,
}
use vajra_forensics_platform.Audit.Entry.{Hasher, genesis_prev_hash}
use vajra_forensics_platform.Audit.Chain.{ChainReport, verify_entries}
use vajra_forensics_platform.Verify.Chain.{VjrAuditEntry, pass, chain_check}
use vajra_forensics_platform.Verify.Chain.Agrees.{
  audit_entry, chain_check-verify_entries, chain_check-segment,
}
use vajra_forensics_platform.Verify.Base64.{base64_decode, position}
use vajra_forensics_platform.Verify.Certificate.{
  starts_with, dashes, spki_prefix, extract_ed25519_pubkey_from_pem,
}
use vajra_forensics_platform.Verify.Certificate.Key.{
  IsChar, IsLine, body, extract_ed25519_pubkey_from_pem-encode,
}
use vajra_forensics_platform.Verify.Envelope.{
  VjrEnvelope, Crypto, EvidenceFile, opened, verify_report_envelope, local_timestamp,
}
use vajra_forensics_platform.Verify.Envelope.Valid.{IsValid, verify_report_envelope-IsValid}
use vajra_forensics_platform.Verify.Base64.Decode.{encode}

abbrev hasher : Hasher
hasher = record { to_json = λ p. p.operation; sha256_hex = λ text. text }

abbrev entry : ℕ → String → String → VjrAuditEntry
entry seq operation prev_hash = record {
  seq = seq;
  timestamp_utc = "now";
  operator_id = "op";
  case_id = "case";
  operation = operation;
  target_descriptor = "sda";
  result = "SUCCESS";
  prev_hash = prev_hash;
  entry_hash = append_text (append_text operation "||") prev_hash;
}

abbrev seizure : VjrAuditEntry
seizure = entry 1 "Seize" genesis_prev_hash

abbrev imaging : VjrAuditEntry
imaging = entry 2 "Image" seizure.entry_hash

chain_check-verify_entries_example :
    ((r : ChainReport) × (verify_entries hasher (map audit_entry (seizure ∷ imaging ∷ [])) ≡ ok r))
    ↔ ((chain_check hasher (seizure ∷ imaging ∷ []) ≡ pass)
        × (seizure.seq ≡ 1)
        × (seizure.prev_hash ≡ genesis_prev_hash))
chain_check-verify_entries_example = chain_check-verify_entries hasher seizure (imaging ∷ [])

accepted :
    verify_entries hasher (map audit_entry (seizure ∷ imaging ∷ []))
    ≡ ok (record {
      total_entries = 2;
      first_seq = 1;
      latest_seq = 2;
      latest_hash = imaging.entry_hash;
      is_valid = true;
    })
unfolding verify_entries
accepted = refl

-- The second entry alone passes, though it does not begin at the genesis hash.
chain_check-segment_example : chain_check hasher (imaging ∷ []) ≡ pass
chain_check-segment_example = chain_check-segment hasher (seizure ∷ []) imaging [] _ accepted

decoded : base64_decode (77 ∷ 113 ∷ 111 ∷ 61 ∷ []) ≡ ok (50 ∷ 170 ∷ [])
unfolding base64_decode
decoded = refl

-- A certificate with two bytes before the key, in two lines.
abbrev key : List ℕ
key = replicate 32 7

abbrev der : List ℕ
der = (48 ∷ 42 ∷ []) ++ (spki_prefix ++ (key ++ []))

abbrev is_blank : List ℕ → Bool
is_blank line = length line == 0

abbrev first_line : List ℕ
first_line = take 30 (encode der)

abbrev second_line : List ℕ
second_line = drop 30 (encode der)

abbrev title : List ℕ
title = 66 ∷ 69 ∷ []

abbrev pem : List ℕ
pem = (dashes ++ title) ++ (10 ∷ body (first_line ∷ second_line ∷ []) title)

all_chars : List ℕ → Bool
all_chars [] = true
all_chars (b ∷ line) = elim (position b) [ none ↦ false | some v ↦ all_chars line ]

all_chars_sound : (line : List ℕ) → all_chars line ≡ true → All IsChar line
unfolding all_chars
all_chars_sound [] e = tt
all_chars_sound (b ∷ line) e = elim (Option-cases (position b)) [
  | inl other ↦ absurd (ground (arith, e, other))
  | inr at ↦ (inr at, all_chars_sound line (ground (arith, e, at.1)))
]

all_bytes : List ℕ → Bool
all_bytes [] = true
all_bytes (b ∷ bytes) = if ltb b 256 then all_bytes bytes else false

all_bytes_sound : (bytes : List ℕ) → all_bytes bytes ≡ true → All (λ b. b < 256) bytes
unfolding all_bytes
all_bytes_sound [] e = tt
all_bytes_sound (b ∷ bytes) e = (ground (arith, e), all_bytes_sound bytes (ground (arith, e)))

title_line : All (λ b. b ≡ 10 → ⊥) title
title_line = (λ e. absurd (omega (arith, e)), (λ e. absurd (omega (arith, e)), tt))

in_lines : All (IsLine is_blank) (first_line ∷ second_line ∷ [])
unfolding all_chars position
in_lines = ((all_chars_sound first_line refl, refl), ((all_chars_sound second_line refl, refl), tt))

der_bytes : All (λ b. b < 256) der
unfolding all_bytes
der_bytes = all_bytes_sound der refl

no_key_before : (i : ℕ) → i < 2 → starts_with (drop i der) spki_prefix ≡ false
unfolding starts_with
no_key_before zero lt = refl
no_key_before (suc zero) lt = refl
no_key_before (suc (suc i)) lt = absurd (omega (arith, lt))

extract_ed25519_pubkey_from_pem-encode_example :
    extract_ed25519_pubkey_from_pem is_blank pem ≡ ok key
extract_ed25519_pubkey_from_pem-encode_example =
    extract_ed25519_pubkey_from_pem-encode is_blank title title (48 ∷ 42 ∷ []) key []
      (first_line ∷ second_line ∷ []) title_line title_line in_lines refl der_bytes refl
      no_key_before

-- A hash that keeps what it is given, and a signature that is the digest.
abbrev crypto : Crypto (List ℕ)
crypto = record {
  sha256 = λ bytes. bytes;
  hex_encode = λ bytes. bytes;
  hex_decode = λ text. some text;
  from_bytes = λ bytes. some bytes;
  verify = λ k digest sig. bytes_eq digest sig;
}

abbrev content : List ℕ
content = replicate 64 65

abbrev report : VjrEnvelope
report = record {
  report_id = "r1";
  case_id = "case";
  report_type = "acquisition";
  title = "title";
  created_at_utc = "now";
  operator_id = "op";
  tool_version = "1";
  build_id = "b";
  content_json = content;
  content_markdown = "";
  content_sha256 = replicate 64 97;
  audit_chain_segment = seizure ∷ imaging ∷ [];
  signature_hex = content;
  signing_cert_pem = pem;
  certificate_chain_pem = none;
  trusted_timestamp = record {
    is_rfc3161 = false;
    tsa_url = none;
    timestamp_utc = "now";
    token_der_base64 = none;
    status_label = 32 ∷ local_timestamp;
  };
  evidence_manifest =
      record { evidence_id = "e1"; file_name = "disk"; sha256_hash = 97 ∷ 98 ∷ []; size_bytes = 2 }
      ∷ [];
}

abbrev disk : Option EvidenceFile
disk = some (opened (some (65 ∷ []) ∷ some (98 ∷ []) ∷ some [] ∷ []))

report_passes : (verify_report_envelope crypto hasher is_blank report disk).overall_valid ≡ true
unfolding verify_report_envelope base64_decode
report_passes = refl

verify_report_envelope-IsValid_example :
    ((verify_report_envelope crypto hasher is_blank report disk).overall_valid ≡ true)
    ↔ IsValid crypto hasher is_blank report disk
verify_report_envelope-IsValid_example =
    verify_report_envelope-IsValid crypto hasher is_blank report disk
