-- ===== src/Verify/Base64/Decode.antt =====
-- Texts of RFC 4648, read back by base64_decode of verifier.rs.
use mathlib.Core.List.{append_assoc, append-nil}
use vajra_forensics_platform.Prelude.{
  ℕ, ◌+◌, ◌-◌, ◌*◌, ◌/◌, ◌%◌, ◌^◌, ◌<◌, ◌≡◌, refl, sym, ap, ◌∙◌, true, false, some, List, [], ◌∷◌,
  ◌++◌, ltb, leb, ◌==◌, if◌then◌else◌, All, bit_or, bit_or_comm, bit_or-shift, u8, u32, ok, arith,
}
use vajra_forensics_platform.Verify.Base64.{position, is_skipped, decode_from, base64_decode}

-- The character of a number below 64.
abbrev pub char_of : ℕ → ℕ
char_of v =
    if ltb v 26
    then v + 65
    else if ltb v 52
    then v + 71
    else if ltb v 62
    then v - 4
    else if v == 62
    then 43
    else 47

-- Three bytes are four characters; what is left at the end is padded.
abbrev pub encode : List ℕ → List ℕ
encode [] = []
encode (a ∷ []) = char_of (a / 4) ∷ char_of (a % 4 * 16) ∷ 61 ∷ 61 ∷ []
encode (a ∷ (b ∷ [])) =
    char_of (a / 4) ∷ char_of (a % 4 * 16 + b / 16) ∷ char_of (b % 16 * 4) ∷ 61 ∷ []
encode (a ∷ (b ∷ (c ∷ rest))) =
    char_of (a / 4)
    ∷ char_of (a % 4 * 16 + b / 16)
    ∷ char_of (b % 16 * 4 + c / 64)
    ∷ char_of (c % 64)
    ∷ encode rest

position-char_of : (v : ℕ) → v < 64 → position (char_of v) ≡ some v
unfolding position
position-char_of v lt = ground arith

is_skipped-char_of : (v : ℕ) → v < 64 → is_skipped (char_of v) ≡ false
unfolding is_skipped
is_skipped-char_of v lt = ground arith

wide_lem : (buf v : ℕ) → buf < 64 → v < 64 → bit_or (u32 (buf * 2 ^ 6)) v ≡ buf * 64 + v
wide_lem buf v lt lt' =
    let narrow : u32 (buf * 2 ^ 6) ≡ buf * 2 ^ 6 = omega arith in
    rw (narrow) (bit_or_comm (buf * 2 ^ 6) v ∙ bit_or-shift 6 v buf (omega arith) ∙ omega arith)

-- A character with fewer than two bits left, and with two, four or six.
first_char :
    (v : ℕ) (input out : List ℕ)
    → v < 64
    → decode_from 0 0 (char_of v ∷ input) out ≡ decode_from v 6 input out
unfolding decode_from
first_char v input out lt =
    rw (is_skipped-char_of v lt, position-char_of v lt, wide_lem 0 v (omega arith) lt)
      (ap (λ k. decode_from k 6 input out) (omega arith))

next_char :
    (buf bits left v byte rest : ℕ) (input out : List ℕ)
    → buf < 64
    → v < 64
    → leb 8 (bits + 6) ≡ true
    → bits + 6 - 8 ≡ left
    → (buf * 64 + v) % 2 ^ left ≡ rest
    → u8 ((buf * 64 + v) / 2 ^ left) ≡ byte
    → decode_from buf bits (char_of v ∷ input) out ≡ decode_from rest left input (out ++ byte ∷ [])
unfolding decode_from
next_char buf bits left v byte rest input out lt lt' full e r b =
    rw (is_skipped-char_of v lt', position-char_of v lt', wide_lem buf v lt lt', full, e, r, b) refl

-- The second character of a group gives its first byte, the third its second, the fourth its third.
second_char :
    (a b : ℕ) (input out : List ℕ)
    → a < 256
    → b < 256
    → decode_from (a / 4) 6 (char_of (a % 4 * 16 + b / 16) ∷ input) out
      ≡ decode_from (b / 16) 4 input (out ++ a ∷ [])
second_char a b input out lt lt' =
    next_char (a / 4) 6 4 (a % 4 * 16 + b / 16) a (b / 16) input out (omega arith) (omega arith)
      (ground arith) (omega arith) (omega arith) (omega arith)

third_char :
    (b c : ℕ) (input out : List ℕ)
    → b < 256
    → c < 256
    → decode_from (b / 16) 4 (char_of (b % 16 * 4 + c / 64) ∷ input) out
      ≡ decode_from (c / 64) 2 input (out ++ b ∷ [])
third_char b c input out lt lt' =
    next_char (b / 16) 4 2 (b % 16 * 4 + c / 64) b (c / 64) input out (omega arith) (omega arith)
      (ground arith) (omega arith) (omega arith) (omega arith)

fourth_char :
    (c : ℕ) (input out : List ℕ)
    → c < 256
    → decode_from (c / 64) 2 (char_of (c % 64) ∷ input) out ≡ decode_from 0 0 input (out ++ c ∷ [])
fourth_char c input out lt =
    next_char (c / 64) 2 0 (c % 64) c 0 input out (omega arith) (omega arith) (ground arith)
      (omega arith) (omega arith) (omega arith)

-- A last group of one byte or two is written like one of three, with zeros after it.
one_left : (a : ℕ) → a % 4 * 16 ≡ a % 4 * 16 + 0 / 16
one_left a = omega arith

two_left : (b : ℕ) → b % 16 * 4 ≡ b % 16 * 4 + 0 / 64
two_left b = omega arith

decode_from-encode :
    (bytes out : List ℕ)
    → All (λ b. b < 256) bytes
    → decode_from 0 0 (encode bytes) out ≡ ok (out ++ bytes)
unfolding decode_from is_skipped
decode_from-encode [] out small = ap ok (sym (append-nil out))
decode_from-encode (a ∷ []) out (lt, small) =
    first_char (a / 4) (char_of (a % 4 * 16) ∷ 61 ∷ 61 ∷ []) out (omega arith)
    ∙ ap (λ (k : ℕ). decode_from (a / 4) 6 (char_of k ∷ 61 ∷ 61 ∷ []) out) (one_left a)
    ∙ second_char a 0 (61 ∷ 61 ∷ []) out lt (omega arith)
decode_from-encode (a ∷ (b ∷ [])) out (lt, (lt', small)) =
    first_char (a / 4) (char_of (a % 4 * 16 + b / 16) ∷ char_of (b % 16 * 4) ∷ 61 ∷ []) out
      (omega arith)
    ∙ second_char a b (char_of (b % 16 * 4) ∷ 61 ∷ []) out lt lt'
    ∙ ap (λ (k : ℕ). decode_from (b / 16) 4 (char_of k ∷ 61 ∷ []) (out ++ a ∷ [])) (two_left b)
    ∙ third_char b 0 (61 ∷ []) (out ++ a ∷ []) lt' (omega arith)
    ∙ ap ok (append_assoc out (a ∷ []) (b ∷ []))
decode_from-encode (a ∷ (b ∷ (c ∷ rest))) out (lt, (lt', (lt'', small))) =
    first_char (a / 4)
      (char_of (a % 4 * 16 + b / 16)
        ∷ char_of (b % 16 * 4 + c / 64)
        ∷ char_of (c % 64)
        ∷ encode rest)
      out (omega arith)
    ∙ second_char a b (char_of (b % 16 * 4 + c / 64) ∷ char_of (c % 64) ∷ encode rest) out lt lt'
    ∙ third_char b c (char_of (c % 64) ∷ encode rest) (out ++ a ∷ []) lt' lt''
    ∙ fourth_char c (encode rest) ((out ++ a ∷ []) ++ b ∷ []) lt''
    ∙ decode_from-encode rest (((out ++ a ∷ []) ++ b ∷ []) ++ c ∷ []) small
    ∙ ap ok (
        append_assoc ((out ++ a ∷ []) ++ b ∷ []) (c ∷ []) rest
        ∙ append_assoc (out ++ a ∷ []) (b ∷ []) (c ∷ rest)
        ∙ append_assoc out (a ∷ []) (b ∷ (c ∷ rest)))

-- Bytes that are written in base64 are decoded to those bytes.
pub base64_decode-encode :
    (bytes : List ℕ) → All (λ b. b < 256) bytes → base64_decode (encode bytes) ≡ ok bytes
unfolding base64_decode
base64_decode-encode bytes small = decode_from-encode bytes [] small
