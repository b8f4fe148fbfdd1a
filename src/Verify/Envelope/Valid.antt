-- ===== src/Verify/Envelope/Valid.antt =====
-- What a valid report of crates/vajra-verify/src/verifier.rs rests on.
use vajra_forensics_platform.Prelude.{
  ℕ, ◌≡◌, ◌↔◌, inl, inr, refl, ap, Bool, true, ◌&&◌, Option, none, some, List, [], ◌∷◌, length, Any,
  Result, ok, err, panic, arith, Bool-cases, Option-cases, subst,
}
use vajra_forensics_platform.Audit.Entry.{Hasher}
use vajra_forensics_platform.Verify.Chain.{CheckStatus, pass, is_pass, chain_check}
use vajra_forensics_platform.Verify.Certificate.{KeyError, extract_ed25519_pubkey_from_pem}
use vajra_forensics_platform.Verify.Envelope.Reads.{
  ReadsTo, stream_sound, stream_complete, IsStamped, ts_check_iff,
}
use vajra_forensics_platform.Verify.Envelope.{
  VjrEvidenceItem, VjrEnvelope, EvidenceFile, unopened, opened, Crypto, eq_ignore_ascii_case,
  ts_check, stream, lists, content_hash_check, signature_of, signature_checks, evidence_check,
  verify_report_envelope,
}

is_pass_iff : (status : CheckStatus) → (is_pass status ≡ true) ↔ (status ≡ pass)
unfolding is_pass
is_pass_iff pass = (λ h. refl, λ h. refl)
is_pass_iff status = (λ h. absurd (ground (arith, h)), λ eq. ap is_pass eq)

six_iff :
    (a b c d e f : Bool)
    → ((a && b && c && d && e && f) ≡ true)
      ↔ ((a ≡ true) × (b ≡ true) × (c ≡ true) × (d ≡ true) × (e ≡ true) × (f ≡ true))
six_iff true true true true true true = (λ h. (refl, refl, refl, refl, refl, refl), λ h. refl)
six_iff a b c d e f = (λ h. absurd (ground (arith, h)), λ h. absurd (ground (arith, h)))

lists_iff :
    (items : List VjrEvidenceItem) (hash : List ℕ)
    → (lists items hash ≡ true)
      ↔ Any (λ item. eq_ignore_ascii_case item.sha256_hash hash ≡ true) items
unfolding lists
lists_iff [] hash = (λ h. absurd (ground (arith, h)), λ h. absurd h)
lists_iff (item ∷ items) hash =
    let rest = lists_iff items hash in
    elim (Bool-cases (eq_ignore_ascii_case item.sha256_hash hash)) [
      | inl same ↦ (λ h. inl same, λ h. rw same refl)
      | inr other ↦ (
        λ h. inr (rest.0 (ground (arith, h, other))),
        λ found. elim found [
          | inl same ↦ absurd (ground (arith, same, other))
          | inr later ↦ rw other (rest.1 later)
        ],
      )
    ]

module _ {Key : Type 0} (crypto : Crypto Key) where
  -- The certificate yields the key under which the signature of the digest holds.
  abbrev pub IsSigned : Result KeyError (List ℕ) → VjrEnvelope → Type 0
  IsSigned extracted envelope =
      (pubkey_bytes : List ℕ) × (extracted ≡ ok pubkey_bytes)
      × (sig_bytes : List ℕ) × (crypto.hex_decode envelope.signature_hex ≡ some sig_bytes)
      × (length sig_bytes ≡ 64)
      × (key : Key) × (crypto.from_bytes pubkey_bytes ≡ some key)
      × (crypto.verify key (crypto.sha256 envelope.content_json) sig_bytes ≡ true)

  signature_of_iff :
      (pubkey_bytes digest sig_bytes : List ℕ)
      → (is_pass (signature_of crypto pubkey_bytes digest sig_bytes) ≡ true) ↔ (
          (length sig_bytes ≡ 64)
          × (key : Key) × (crypto.from_bytes pubkey_bytes ≡ some key)
          × (crypto.verify key digest sig_bytes ≡ true))
  unfolding signature_of is_pass
  signature_of_iff pubkey_bytes digest sig_bytes = (
    λ passed. elim (Option-cases (crypto.from_bytes pubkey_bytes)) [
      | inl invalid ↦ absurd (ground (arith, passed, invalid))
      | inr (key, valid) ↦
          (ground (arith, passed, valid), key, valid, ground (arith, passed, valid))
    ],
    λ (full, key, valid, verified). ground (arith, full, valid, verified),
  )

  signature_checks_iff :
      (extracted : Result KeyError (List ℕ)) (envelope : VjrEnvelope)
      → ((is_pass (signature_checks crypto extracted envelope).1 ≡ true)
          × (is_pass (signature_checks crypto extracted envelope).0 ≡ true))
        ↔ IsSigned extracted envelope
  unfolding signature_checks is_pass
  signature_checks_iff (err e) envelope = (
    λ (signed, certified). absurd (ground (arith, signed)),
    λ signed. absurd (ground (arith, signed.1)),
  )
  signature_checks_iff panic envelope = (
    λ (signed, certified). absurd (ground (arith, signed)),
    λ signed. absurd (ground (arith, signed.1)),
  )
  signature_checks_iff (ok pubkey_bytes) envelope = (
    λ (signed, certified). elim (Option-cases (crypto.hex_decode envelope.signature_hex)) [
      | inl invalid ↦ absurd (ground (arith, signed, invalid))
      | inr (sig_bytes, decoded) ↦
          let holds =
            (signature_of_iff pubkey_bytes _ sig_bytes).0 (ground (arith, signed, decoded)) in
          (pubkey_bytes, refl, sig_bytes, decoded, holds.0, holds.1, holds.2, holds.3)
    ],
    λ (k, extracted, sig_bytes, decoded, full, key, valid, verified).
        let valid_key : crypto.from_bytes pubkey_bytes ≡ some key = cc (extracted, valid) in
        let holds =
          (signature_of_iff pubkey_bytes _ sig_bytes).1 (full, key, valid_key, verified) in
        (rw decoded holds, refl),
  )

  -- The file is read to its end and the manifest lists its hash.
  abbrev pub IsListed : EvidenceFile → List VjrEvidenceItem → Type 0
  IsListed unopened items = ⊥
  IsListed (opened answers) items =
      (bytes : List ℕ) × ReadsTo answers bytes
      × Any
          (λ item.
            eq_ignore_ascii_case item.sha256_hash (crypto.hex_encode (crypto.sha256 bytes)) ≡ true)
          items

  evidence_check_iff :
      (file : EvidenceFile) (items : List VjrEvidenceItem)
      → (is_pass (evidence_check crypto file items) ≡ true) ↔ IsListed file items
  unfolding evidence_check is_pass
  evidence_check_iff unopened items = (λ h. absurd (ground (arith, h)), λ h. absurd h)
  evidence_check_iff (opened answers) items = (
    λ h. elim (Option-cases (stream answers [])) [
      | inl failed ↦ absurd (ground (arith, h, failed))
      | inr (bytes, whole) ↦
          let listed = lists_iff items (crypto.hex_encode (crypto.sha256 bytes)) in
          let (rest, reads, same) = stream_sound answers [] bytes whole in
          (
            bytes,
            subst (λ (l : List ℕ). ReadsTo answers l) same reads,
            listed.0 (ground (arith, h, whole)),
          )
    ],
    λ (bytes, reads, found).
        let whole : stream answers [] ≡ some bytes = stream_complete [] reads in
        let listed = (lists_iff items (crypto.hex_encode (crypto.sha256 bytes))).1 found in
        ground (arith, whole, listed),
  )

  passes_when_given : Option EvidenceFile → List VjrEvidenceItem → Bool
  unfolding is_pass
  passes_when_given evidence_file items =
      let evidence : Option CheckStatus = elim evidence_file [
        | none ↦ none
        | some file ↦ some (evidence_check crypto file items)
      ] in
      elim evidence [ none ↦ true | some status ↦ is_pass status ]

  -- What is asked of a file, when one is given.
  asked_iff :
      (evidence_file : Option EvidenceFile) (items : List VjrEvidenceItem)
      → (passes_when_given evidence_file items ≡ true)
        ↔ ((file : EvidenceFile) → evidence_file ≡ some file → IsListed file items)
  unfolding passes_when_given
  asked_iff none items = (λ h. λ file. λ given. absurd (ground (arith, given)), λ h. refl)
  asked_iff (some evidence) items = (
    λ h. λ file. λ given.
        let same : is_pass (evidence_check crypto file items) ≡ true = cc (given, h) in
        (evidence_check_iff file items).0 same,
    λ h. (evidence_check_iff evidence items).1 (h evidence refl),
  )

  module _ (h : Hasher) (is_blank : List ℕ → Bool) where
    abbrev pub IsValid : VjrEnvelope → Option EvidenceFile → Type 0
    IsValid envelope evidence_file =
        (eq_ignore_ascii_case (crypto.hex_encode (crypto.sha256 envelope.content_json))
            envelope.content_sha256
          ≡ true)
        × IsSigned (extract_ed25519_pubkey_from_pem is_blank envelope.signing_cert_pem) envelope
        × (chain_check h envelope.audit_chain_segment ≡ pass)
        × IsStamped envelope.trusted_timestamp
        × ((file : EvidenceFile)
            → evidence_file ≡ some file
            → IsListed file envelope.evidence_manifest)

    -- A report is valid exactly when the hash of its content is the one it states, up to the case
    -- of letters, its certificate yields a key under which its signature of 64 bytes holds for
    -- that hash, its audit segment passes, its timestamp has a token and the address of an
    -- authority or, where it claims no RFC 3161, is labelled as local, and an evidence file, when
    -- one is given, is read to its end without an error and the manifest lists its hash. The
    -- subject of the certificate is not asked for.
    pub verify_report_envelope-IsValid :
        (envelope : VjrEnvelope) (evidence_file : Option EvidenceFile)
        → ((verify_report_envelope crypto h is_blank envelope evidence_file).overall_valid ≡ true)
          ↔ IsValid envelope evidence_file
    unfolding verify_report_envelope content_hash_check is_pass passes_when_given
        extract_ed25519_pubkey_from_pem
    verify_report_envelope-IsValid envelope evidence_file =
        let digest = crypto.hex_encode (crypto.sha256 envelope.content_json) in
        let extracted = extract_ed25519_pubkey_from_pem is_blank envelope.signing_cert_pem in
        let checks = signature_checks crypto extracted envelope in
        let signed = signature_checks_iff extracted envelope in
        let chain = is_pass_iff (chain_check h envelope.audit_chain_segment) in
        let stamp = ts_check_iff envelope.trusted_timestamp in
        let asked = asked_iff evidence_file envelope.evidence_manifest in
        let all =
          six_iff (is_pass (content_hash_check crypto envelope)) (is_pass checks.1)
            (is_pass checks.0) (is_pass (chain_check h envelope.audit_chain_segment))
            (is_pass (ts_check envelope.trusted_timestamp))
            (passes_when_given evidence_file envelope.evidence_manifest) in
        (
          λ valid.
              let (a, b, c, d, e, f) = all.0 valid in
              (ground (arith, a), signed.0 (b, c), chain.0 d, stamp.0 e, asked.0 f),
          λ (content, signature, segment, time, file).
              let (b, c) = signed.1 signature in
              all.1 (ground (arith, content), b, c, chain.1 segment, stamp.1 time, asked.1 file),
        )
