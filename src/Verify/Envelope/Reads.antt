-- ===== src/Verify/Envelope/Reads.antt =====
-- The parts of the check of verifier.rs that go byte by byte: the evidence file and the timestamp.
use mathlib.Core.List.{append_assoc, append-nil}
use mathlib.Core.Option.{some-injective}
use vajra_forensics_platform.Prelude.{
  ℕ, ◌≡◌, ◌↔◌, inl, inr, refl, ap, true, Option, none, some, List, [], ◌∷◌, arith, Bool-cases,
  false, ap₂, sym, ◌∙◌, ◌++◌, String,
}
use vajra_forensics_platform.Verify.Chain.{is_pass}
use vajra_forensics_platform.Verify.Certificate.{starts_with, position_of}
use vajra_forensics_platform.Verify.Envelope.{
  ts_check, stream, VjrTimestampRecord, is_some, local_timestamp,
}

-- The bytes of a file whose reader gives these answers: those of its buffers up to the first empty
-- one, or up to the last, with no error before it.
pub data ReadsTo : List (Option (List ℕ)) → List ℕ → Type 0 where
  reads_all : ReadsTo [] []
  reads_end : {answers : List (Option (List ℕ))} → ReadsTo (some [] ∷ answers) []
  reads_buffer :
      {answers : List (Option (List ℕ))} {b : ℕ} {buffer bytes : List ℕ}
      → ReadsTo answers bytes
      → ReadsTo (some (b ∷ buffer) ∷ answers) ((b ∷ buffer) ++ bytes)

pub stream_sound :
    (answers : List (Option (List ℕ))) (seen bytes : List ℕ)
    → stream answers seen ≡ some bytes
    → (rest : List ℕ) × ReadsTo answers rest × (seen ++ rest ≡ bytes)
unfolding stream
stream_sound [] seen bytes e = ([], reads_all, append-nil seen ∙ some-injective _ _ e)
stream_sound (none ∷ answers) seen bytes e = absurd (ground (arith, e))
stream_sound (some [] ∷ answers) seen bytes e =
    ([], reads_end, append-nil seen ∙ some-injective _ _ e)
stream_sound (some (b ∷ buffer) ∷ answers) seen bytes e =
    let (rest, reads, same) = stream_sound answers (seen ++ b ∷ buffer) bytes e in
    ((b ∷ buffer) ++ rest, reads_buffer reads, sym (append_assoc seen (b ∷ buffer) rest) ∙ same)

pub stream_complete :
    {answers : List (Option (List ℕ))} {rest : List ℕ} (seen : List ℕ)
    → ReadsTo answers rest
    → stream answers seen ≡ some (seen ++ rest)
unfolding stream
stream_complete seen reads_all = ap some (sym (append-nil seen))
stream_complete seen reads_end = ap some (sym (append-nil seen))
stream_complete seen (reads_buffer {answers} {b} {buffer} {bytes} reads) =
    stream_complete (seen ++ b ∷ buffer) reads ∙ ap some (append_assoc seen (b ∷ buffer) bytes)

-- A text in which another one stands.
abbrev pub Contains : List ℕ → List ℕ → Type 0
Contains text pattern = (before : List ℕ) × (after : List ℕ) × (text ≡ before ++ (pattern ++ after))

starts_with_sound :
    (text pattern : List ℕ)
    → starts_with text pattern ≡ true
    → (after : List ℕ) × (text ≡ pattern ++ after)
unfolding starts_with
starts_with_sound text [] e = (text, refl)
starts_with_sound [] (p ∷ pattern) e = absurd (ground (arith, e))
starts_with_sound (b ∷ text) (p ∷ pattern) e =
    let (after, same) = starts_with_sound text pattern (ground (arith, e)) in
    let first : b ≡ p = ground (arith, e) in (after, ap₂ (λ (x : ℕ) (l : List ℕ). x ∷ l) first same)

starts_with_complete : (pattern after : List ℕ) → starts_with (pattern ++ after) pattern ≡ true
unfolding starts_with
starts_with_complete [] [] = refl
starts_with_complete [] (b ∷ after) = refl
starts_with_complete (p ∷ pattern) after = ground (arith, starts_with_complete pattern after)

position_of_sound :
    (text pattern : List ℕ) → is_some (position_of text pattern) ≡ true → Contains text pattern
unfolding position_of
position_of_sound [] pattern e = absurd (ground (arith, e))
position_of_sound (b ∷ text) pattern e = elim (Bool-cases (starts_with (b ∷ text) pattern)) [
  | inl here ↦ let (after, same) = starts_with_sound (b ∷ text) pattern here in ([], after, same)
  | inr later ↦
      let (before, after, same) = position_of_sound text pattern (ground (arith, e, later)) in
      (b ∷ before, after, ap (λ (l : List ℕ). b ∷ l) same)
]

position_of_complete :
    (before : List ℕ) (p : ℕ) (pattern after : List ℕ)
    → is_some (position_of (before ++ ((p ∷ pattern) ++ after)) (p ∷ pattern)) ≡ true
unfolding position_of
position_of_complete [] p pattern after = ground (arith, starts_with_complete (p ∷ pattern) after)
position_of_complete (b ∷ before) p pattern after =
    ground (arith, position_of_complete before p pattern after)

is_some_iff : (o : Option String) → (is_some o ≡ true) ↔ ((a : String) × (o ≡ some a))
is_some_iff none = (λ e. absurd (ground (arith, e)), λ a. absurd (ground (arith, a.1)))
is_some_iff (some a) = (λ e. (a, refl), λ b. refl)

-- A timestamp of RFC 3161 has a token and the address of its authority, and another one is labelled
-- as local.
abbrev pub IsStamped : VjrTimestampRecord → Type 0
IsStamped stamp =
    ((stamp.is_rfc3161 ≡ true)
      → ((token : String) × (stamp.token_der_base64 ≡ some token))
        × ((url : String) × (stamp.tsa_url ≡ some url)))
    × ((stamp.is_rfc3161 ≡ false) → Contains stamp.status_label local_timestamp)

pub ts_check_iff :
    (stamp : VjrTimestampRecord) → (is_pass (ts_check stamp) ≡ true) ↔ IsStamped stamp
unfolding ts_check is_pass
ts_check_iff stamp =
    let token = is_some_iff stamp.token_der_base64 in
    let url = is_some_iff stamp.tsa_url in
    (
      λ passed. (
        λ rfc. (token.0 (ground (arith, passed, rfc)), url.0 (ground (arith, passed, rfc))),
        λ other.
            position_of_sound stamp.status_label local_timestamp (ground (arith, passed, other)),
      ),
      λ (signed, local). elim (Bool-cases stamp.is_rfc3161) [
        | inl rfc ↦
            let (a, b) = signed rfc in
            let has_token = token.1 a in
            let has_url = url.1 b in ground (arith, rfc, has_token, has_url)
        | inr other ↦
            let (before, after, same) = local other in
            let found : is_some (position_of stamp.status_label local_timestamp) ≡ true = rw same (
              position_of_complete before 76
                (111 ∷ 99 ∷ 97 ∷ 108 ∷ 32 ∷ 116 ∷ 105 ∷ 109 ∷ 101 ∷ 115 ∷ 116 ∷ 97 ∷ 109 ∷ 112 ∷ [])
                after) in
            ground (arith, other, found)
      ],
    )
