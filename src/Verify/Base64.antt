-- ===== src/Verify/Base64.antt =====
-- crates/vajra-verify/src/verifier.rs, base64_decode. Texts and blobs are lists of bytes.
pub mod Decode
use vajra_forensics_platform.Prelude.{
  ℕ, ◌+◌, ◌-◌, ◌*◌, ◌/◌, ◌%◌, ◌^◌, bit_or, Bool, ◌&&◌, ◌||◌, Option, none, some, List, [], ◌∷◌,
  ◌++◌, ltb, leb, ◌==◌, if◌then◌else◌, u8, u32, Result, ok, err,
}

-- The position of a byte in the table "A".."Z" "a".."z" "0".."9" "+" "/".
unfoldable pub position : ℕ → Option ℕ
position b =
    if leb 65 b && leb b 90
    then some (b - 65)
    else if leb 97 b && leb b 122
    then some (b - 97 + 26)
    else if leb 48 b && leb b 57
    then some (b - 48 + 52)
    else if b == 43
    then some 62
    else if b == 47
    then some 63
    else none

-- Padding, and `is_ascii_whitespace`.
pub is_skipped : ℕ → Bool
is_skipped b = b == 61 || b == 32 || b == 9 || b == 10 || b == 12 || b == 13

-- The loop, with the bits that are left over and their number. An error is the byte that is not in
-- the table.
pub decode_from : ℕ → ℕ → List ℕ → List ℕ → Result ℕ (List ℕ)
unfolding position is_skipped
decode_from buf bits [] out = ok out
decode_from buf bits (b ∷ input) out =
    let skip = decode_from buf bits input out in
    let take_in = λ (val : ℕ).
      let wide = bit_or (u32 (buf * 2 ^ 6)) val in
      if leb 8 (bits + 6)
      then decode_from (wide % 2 ^ (bits + 6 - 8)) (bits + 6 - 8) input
          (out ++ u8 (wide / 2 ^ (bits + 6 - 8)) ∷ [])
      else decode_from wide (bits + 6) input out in
    if is_skipped b then skip else elim (position b) [ none ↦ err b | some val ↦ take_in val ]

unfoldable pub base64_decode : List ℕ → Result ℕ (List ℕ)
unfolding decode_from
base64_decode input = decode_from 0 0 input []
