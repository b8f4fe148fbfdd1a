-- ===== src/Verify/Certificate.antt =====
-- crates/vajra-verify/src/verifier.rs, extract_ed25519_pubkey_from_pem. Texts and blobs are lists of
-- bytes; whether a line is blank, `trim().is_empty()`, is a parameter.
pub mod Key
use vajra_forensics_platform.Prelude.{
  ℕ, ◌+◌, Bool, true, false, not, ◌&&◌, Option, none, some, List, [], ◌∷◌, ◌++◌, leb, ◌==◌,
  if◌then◌else◌, length, take, drop, Result, ok, err, panic,
}
use vajra_forensics_platform.Verify.Base64.{base64_decode}

pub data KeyError : Type 0 where
  invalid_char : ℕ → KeyError
  no_key : KeyError

unfoldable pub starts_with : List ℕ → List ℕ → Bool
starts_with bytes [] = true
starts_with [] (p ∷ prefix) = false
starts_with (b ∷ bytes) (p ∷ prefix) = b == p && starts_with bytes prefix

-- The first place of a pattern that is not empty.
unfoldable pub position_of : List ℕ → List ℕ → Option ℕ
unfolding starts_with
position_of [] pattern = none
position_of (b ∷ bytes) pattern =
    let rest = position_of bytes pattern in
    if starts_with (b ∷ bytes) pattern
    then some 0
    else elim rest [ none ↦ none | some pos ↦ some (pos + 1) ]

-- The line that is read so far, without the carriage return that ends it.
abbrev pub without_return : List ℕ → List ℕ
without_return [] = []
without_return (b ∷ []) = if b == 13 then [] else b ∷ []
without_return (b ∷ (c ∷ line)) = b ∷ without_return (c ∷ line)

-- `lines`, with the line that is read so far.
pub lines_from : List ℕ → List ℕ → List (List ℕ)
lines_from [] [] = []
lines_from [] (b ∷ line) = (b ∷ line) ∷ []
lines_from (c ∷ text) line =
    let next = lines_from text [] in
    let longer = lines_from text (line ++ c ∷ []) in
    if c == 10 then without_return line ∷ next else longer

abbrev pub dashes : List ℕ
dashes = 45 ∷ 45 ∷ 45 ∷ 45 ∷ 45 ∷ []

-- The object identifier of Ed25519 and the head of the bit string behind it.
abbrev pub spki_prefix : List ℕ
spki_prefix = 6 ∷ 3 ∷ 43 ∷ 101 ∷ 112 ∷ 3 ∷ 33 ∷ 0 ∷ []

-- The lines that are kept, joined.
module _ (is_blank : List ℕ → Bool) where
  pub joined : List (List ℕ) → List ℕ
  unfolding starts_with
  joined [] = []
  joined (line ∷ lines) =
      if not (starts_with line dashes) && not (is_blank line)
      then line ++ joined lines
      else joined lines

unfoldable pub key_in : List ℕ → Result KeyError (List ℕ)
unfolding position_of
key_in der = elim (position_of der spki_prefix) [
  | none ↦ err no_key
  | some pos ↦
      if leb (pos + 8 + 32) (length der) then ok (take 32 (drop (pos + 8) der)) else err no_key
]

unfoldable pub extract_ed25519_pubkey_from_pem : (List ℕ → Bool) → List ℕ → Result KeyError (List ℕ)
unfolding lines_from joined key_in
extract_ed25519_pubkey_from_pem is_blank pem =
    elim (base64_decode (joined is_blank (lines_from pem []))) [
      | ok der ↦ key_in der
      | err b ↦ err (invalid_char b)
      | panic ↦ panic
    ]
