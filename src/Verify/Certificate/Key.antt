-- ===== src/Verify/Certificate/Key.antt =====
-- The key that verifier.rs finds in a certificate.
use mathlib.Core.List.{append_assoc, append-nil}
use vajra_forensics_platform.Prelude.{
  ℕ, zero, suc, ◌≡◌, ◌<◌, ◌+◌, refl, ◌⊎◌, inl, inr, ap, sym, ◌∙◌, Bool, true, false, none, some,
  List, [], ◌∷◌, ◌++◌, All, ◌==◌, length, take, drop, ok, arith, ◌≤◌, length-append, take_append,
}
use vajra_forensics_platform.Verify.Base64.{position, base64_decode}
use vajra_forensics_platform.Verify.Base64.Decode.{encode, base64_decode-encode}
use vajra_forensics_platform.Verify.Certificate.{
  starts_with, position_of, without_return, lines_from, dashes, spki_prefix, joined, key_in,
  extract_ed25519_pubkey_from_pem,
}

-- A character of the table, or the padding.
abbrev pub IsChar : ℕ → Type 0
IsChar b = (b ≡ 61) ⊎ ((v : ℕ) × (position b ≡ some v))

-- A line of characters of base64 that is not blank.
abbrev pub IsLine : (List ℕ → Bool) → List ℕ → Type 0
IsLine is_blank line = All IsChar line × (is_blank line ≡ false)

-- The lines of a certificate behind its first line, and the last line.
abbrev pub body : List (List ℕ) → List ℕ → List ℕ
body [] tail = dashes ++ tail
body (line ∷ lines) tail = line ++ (10 ∷ body lines tail)

abbrev pub concat : List (List ℕ) → List ℕ
concat [] = []
concat (line ∷ lines) = line ++ concat lines

starts_with-append : (pattern rest : List ℕ) → starts_with (pattern ++ rest) pattern ≡ true
unfolding starts_with
starts_with-append [] [] = refl
starts_with-append [] (b ∷ rest) = refl
starts_with-append (p ∷ pattern) rest = ground (arith, starts_with-append pattern rest)

-- Where the pattern does not begin before, its place is the length of what is before it.
position_of-append :
    (before rest : List ℕ)
    → ((i : ℕ)
        → i < length before
        → starts_with (drop i (before ++ (spki_prefix ++ rest))) spki_prefix ≡ false)
    → position_of (before ++ (spki_prefix ++ rest)) spki_prefix ≡ some (length before)
unfolding position_of starts_with
position_of-append [] rest first = ground (arith, starts_with-append spki_prefix rest)
position_of-append (b ∷ before) rest first =
    let here = first 0 (omega arith) in
    let later = position_of-append before rest (λ i. λ lt. first (suc i) (omega (arith, lt))) in
    ground (arith, here, later)

drop-append : (xs ys : List ℕ) (n m : ℕ) → m ≡ length xs + n → drop m (xs ++ ys) ≡ drop n ys
drop-append [] ys n m e = let same : m ≡ n = omega (arith, e) in rw same refl
drop-append (x ∷ xs) ys n zero e = absurd (omega (arith, e))
drop-append (x ∷ xs) ys n (suc m) e = drop-append xs ys n m (omega (arith, e))

key_in-append :
    (before key after : List ℕ)
    → length key ≡ 32
    → ((i : ℕ)
        → i < length before
        → starts_with (drop i (before ++ (spki_prefix ++ (key ++ after)))) spki_prefix ≡ false)
    → key_in (before ++ (spki_prefix ++ (key ++ after))) ≡ ok key
unfolding key_in
key_in-append before key after full first =
    let found = position_of-append before (key ++ after) first in
    let der = before ++ (spki_prefix ++ (key ++ after)) in
    let size : length before + 8 + 32 ≤ length der = omega (
      arith,
      full,
      length-append before (spki_prefix ++ (key ++ after)),
      length-append spki_prefix (key ++ after),
      length-append key after,
    ) in
    let at : drop (length before + 8) der ≡ key ++ after =
      drop-append before (spki_prefix ++ (key ++ after)) 8 (length before + 8) refl in
    let taken : take 32 (drop (length before + 8) der) ≡ key =
      rw at (take_append key after 32 full) in
    ground (arith, found, size, taken)

-- A line ends at the line feed behind it.
lines_from-line :
    (line text acc : List ℕ)
    → All (λ b. b ≡ 10 → ⊥) line
    → lines_from (line ++ (10 ∷ text)) acc ≡ without_return (acc ++ line) ∷ lines_from text []
unfolding lines_from
lines_from-line [] text acc others =
    ap (λ l. without_return l ∷ lines_from text []) (sym (append-nil acc))
lines_from-line (b ∷ line) text acc (other, others) =
    let next = lines_from-line line text (acc ++ b ∷ []) others in
    let differs : (b == 10) ≡ false = ground (arith, other) in
    rw differs
      (next ∙ ap (λ l. without_return l ∷ lines_from text []) (append_assoc acc (b ∷ []) line))

lines_from-last :
    (line acc : List ℕ) (a : ℕ)
    → All (λ b. b ≡ 10 → ⊥) line
    → lines_from line (a ∷ acc) ≡ ((a ∷ acc) ++ line) ∷ []
unfolding lines_from
lines_from-last [] acc a others = ap (λ l. l ∷ []) (sym (append-nil (a ∷ acc)))
lines_from-last (b ∷ line) acc a (other, others) =
    let next = lines_from-last line (acc ++ b ∷ []) a others in
    let differs : (b == 10) ≡ false = ground (arith, other) in
    rw differs (next ∙ ap (λ l. l ∷ []) (append_assoc (a ∷ acc) (b ∷ []) line))

without_return_same : (line : List ℕ) → All (λ b. b ≡ 13 → ⊥) line → without_return line ≡ line
without_return_same [] others = refl
without_return_same (b ∷ []) (other, others) = ground (arith, other)
without_return_same (b ∷ (c ∷ line)) (other, others) =
    ap (λ l. b ∷ l) (without_return_same (c ∷ line) others)

-- A character of base64 is none of the bytes that end a line.
no_end :
    (line : List ℕ) (e : ℕ)
    → position e ≡ none
    → (e ≡ 61 → ⊥)
    → All IsChar line
    → All (λ b. b ≡ e → ⊥) line
no_end [] e ends no_padding chars = chars
no_end (b ∷ line) e ends no_padding (inl padding, chars) =
    (λ same. no_padding (sym same ∙ padding), no_end line e ends no_padding chars)
no_end (b ∷ line) e ends no_padding (inr (v, at), chars) =
    (λ same. absurd (ground (arith, at, ends, same)), no_end line e ends no_padding chars)

no_dashes : (line : List ℕ) → All IsChar line → starts_with line dashes ≡ false
unfolding starts_with position
no_dashes [] chars = refl
no_dashes (b ∷ line) (inl padding, chars) = ground (arith, padding)
no_dashes (b ∷ line) (inr (v, at), chars) = ground (arith, at)

dashes-without_return :
    (tail : List ℕ) → starts_with (without_return (dashes ++ tail)) dashes ≡ true
unfolding starts_with
dashes-without_return [] = refl
dashes-without_return (b ∷ tail) = refl

dashes_line : (head : List ℕ) → All (λ b. b ≡ 10 → ⊥) head → All (λ b. b ≡ 10 → ⊥) (dashes ++ head)
dashes_line head others =
    let dash : 45 ≡ 10 → ⊥ = λ e. absurd (omega (arith, e)) in
    (dash, (dash, (dash, (dash, (dash, others)))))

module _ (is_blank : List ℕ → Bool) where
  joined-body :
      (lines : List (List ℕ)) (tail : List ℕ)
      → All (IsLine is_blank) lines
      → All (λ b. b ≡ 10 → ⊥) tail
      → joined is_blank (lines_from (body lines tail) []) ≡ concat lines
  unfolding joined starts_with lines_from position
  joined-body [] tail are_lines others =
      rw (lines_from-last tail (45 ∷ 45 ∷ 45 ∷ 45 ∷ []) 45 others) refl
  joined-body (line ∷ lines) tail ((chars, full), are_lines) others =
      let split =
        lines_from-line line (body lines tail) []
          (no_end line 10 refl (λ same. absurd (omega (arith, same))) chars) in
      let kept =
        without_return_same line
          (no_end line 13 refl (λ same. absurd (omega (arith, same))) chars) in
      let rest = joined-body lines tail are_lines others in
      rw (split, kept, no_dashes line chars, full, rest) refl

  -- From a certificate that is written in base64 between two lines of dashes, cut into lines that
  -- are not blank, the verifier takes the 32 bytes behind the first head of an Ed25519 key; the
  -- first and the last line have no line feed.
  pub extract_ed25519_pubkey_from_pem-encode :
      (head tail before key after : List ℕ) (lines : List (List ℕ))
      → All (λ b. b ≡ 10 → ⊥) head
      → All (λ b. b ≡ 10 → ⊥) tail
      → All (IsLine is_blank) lines
      → concat lines ≡ encode (before ++ (spki_prefix ++ (key ++ after)))
      → All (λ b. b < 256) (before ++ (spki_prefix ++ (key ++ after)))
      → length key ≡ 32
      → ((i : ℕ)
          → i < length before
          → starts_with (drop i (before ++ (spki_prefix ++ (key ++ after)))) spki_prefix ≡ false)
      → extract_ed25519_pubkey_from_pem is_blank ((dashes ++ head) ++ (10 ∷ body lines tail))
        ≡ ok key
  unfolding extract_ed25519_pubkey_from_pem joined base64_decode
  extract_ed25519_pubkey_from_pem-encode head tail before key after lines head_line tail_line
        are_lines text bytes full first =
      let der = before ++ (spki_prefix ++ (key ++ after)) in
      let begins : lines_from ((dashes ++ head) ++ (10 ∷ body lines tail)) []
          ≡ without_return (dashes ++ head) ∷ lines_from (body lines tail) [] =
        lines_from-line (dashes ++ head) (body lines tail) [] (dashes_line head head_line) in
      let rest = joined-body lines tail are_lines tail_line in
      let all : joined is_blank (lines_from ((dashes ++ head) ++ (10 ∷ body lines tail)) [])
          ≡ encode der =
        rw (begins, dashes-without_return head) (rest ∙ text) in
      let decoded : base64_decode
            (joined is_blank (lines_from ((dashes ++ head) ++ (10 ∷ body lines tail)) []))
          ≡ ok der =
        rw all (base64_decode-encode der bytes) in
      rw decoded (key_in-append before key after full first)
