-- ===== src/Ntfs/Runs/Numbers.antt =====
-- The numbers of a run, of mft.rs: an unsigned one, and a signed one that is filled to 64 bits.
use native.Mathlib.Nat.{pow-le-pow_right, one-le-pow, mod-lt}
use vajra_forensics_platform.Prelude.{
  ℕ, zero, suc, ◌+◌, ◌-◌, ◌*◌, ◌/◌, ◌%◌, ◌^◌, ◌≤◌, ◌<◌, ◌≡◌, sym, ap, ◌∙◌, bit_or-shift,
  pow_byte_suc, mod_byte, byte_lt, List, u64, ◌==◌, if◌then◌else◌, get_or, arith,
}
use vajra_forensics_platform.Ntfs.Runs.{shl, or_bytes, sign_fill, signed_bytes}

-- The low `n` bytes of a number stand from `offset` on.
abbrev pub Holds : List ℕ → ℕ → ℕ → ℕ → Type 0
Holds buf offset n v = (i : ℕ) → i < n → get_or buf (offset + i) 0 ≡ v / 2 ^ (i * 8) % 256

pow_pos : (n : ℕ) → 0 < 2 ^ (n * 8)
pow_pos n = one-le-pow (n * 8) 2 (omega arith)

pow_le : (n : ℕ) → n ≤ 7 → 2 ^ (n * 8) ≤ 2 ^ 56
pow_le n le =
    let at_most : n * 8 ≤ 56 = omega arith in
    pow-le-pow_right {n = 2} (omega arith) {i = n * 8} {j = 56} at_most

-- A byte that is shifted to its place.
shl_byte : (n x : ℕ) → n ≤ 7 → x < 256 → shl x (n * 8) ≡ x * 2 ^ (n * 8)
shl_byte n x le lt =
    let distance : n * 8 % 64 ≡ n * 8 = omega arith in
    let fits = byte_lt x (2 ^ (n * 8)) lt (pow_le n le) in rw (distance) (omega (arith, fits))

pub or_bytes-Holds :
    (buf : List ℕ) (offset n v : ℕ)
    → n ≤ 8
    → Holds buf offset n v
    → or_bytes buf offset n ≡ v % 2 ^ (n * 8)
unfolding or_bytes
or_bytes-Holds buf offset zero v le held = omega arith
or_bytes-Holds buf offset (suc n) v le held =
    let d = 2 ^ (n * 8) in
    rw
      (
        or_bytes-Holds buf offset n v (omega arith) (λ i lt. held i (omega arith)),
        held n (omega arith),
        shl_byte n (v / d % 256) (omega arith) (omega arith),
        bit_or-shift (n * 8) (v % d) (v / d % 256) (mod-lt v (pow_pos n)),
        pow_byte_suc n,
      )
      (sym (mod_byte v d (pow_pos n)))

-- Filling from the `i`th byte on adds ones above the digits that are there.
sign_fill_lem :
    (n i delta : ℕ)
    → n + i ≡ 8
    → delta < 2 ^ (i * 8)
    → sign_fill n i delta ≡ delta + (2 ^ 64 - 2 ^ (i * 8))
unfolding sign_fill
sign_fill_lem zero i delta e lt = let all : i ≡ 8 = omega arith in rw (all) (omega arith)
sign_fill_lem (suc n) i delta e lt =
    let filled = bit_or-shift (i * 8) delta 255 lt in
    let next : 2 ^ ((i + 1) * 8) ≡ 2 ^ (i * 8) * 256 =
      let plus : i + 1 ≡ suc i = omega arith in rw (plus) (pow_byte_suc i) in
    let le = pow_le i (omega arith) in
    rw (shl_byte i 255 (omega arith) (omega arith), filled)
      (let rest = sign_fill_lem n (i + 1) (delta + 255 * 2 ^ (i * 8)) (omega arith) (omega arith) in
        omega arith)

-- The widths that a number has.
width_elim :
    (P : ℕ → Type 0) → P 1 → P 2 → P 3 → P 4 → P 5 → P 6 → P 7 → P 8 → (n : ℕ) → 1 ≤ n → n ≤ 8 → P n
width_elim P p q r s t u v w zero pos le = absurd (omega arith)
width_elim P p q r s t u v w (suc zero) pos le = p
width_elim P p q r s t u v w (suc (suc zero)) pos le = q
width_elim P p q r s t u v w (suc (suc (suc zero))) pos le = r
width_elim P p q r s t u v w (suc (suc (suc (suc zero)))) pos le = s
width_elim P p q r s t u v w (suc (suc (suc (suc (suc zero))))) pos le = t
width_elim P p q r s t u v w (suc (suc (suc (suc (suc (suc zero)))))) pos le = u
width_elim P p q r s t u v w (suc (suc (suc (suc (suc (suc (suc zero))))))) pos le = v
width_elim P p q r s t u v w (suc (suc (suc (suc (suc (suc (suc (suc zero)))))))) pos le = w
width_elim P p q r s t u v w (suc (suc (suc (suc (suc (suc (suc (suc (suc n))))))))) pos le =
    absurd (omega arith)

-- The low `n` bytes of a difference that fits them, filled by its sign.
filled_sign : ℕ → ℕ → ℕ
filled_sign n v =
    if v / 2 ^ ((n - 1) * 8) % 256 / 128 % 2 == 1
    then v % 2 ^ (n * 8) + (2 ^ 64 - 2 ^ (n * 8))
    else v % 2 ^ (n * 8)

IsFilled : ℕ → Type 0
IsFilled n =
    (from to : ℕ)
    → from < 2 ^ 63
    → to < 2 ^ 63
    → to < from + 2 ^ (n * 8 - 1)
    → from ≤ to + 2 ^ (n * 8 - 1)
    → filled_sign n (to + 2 ^ 64 - from) ≡ u64 (to + 2 ^ 64 - from)

filled_sign_lem : (n : ℕ) → 1 ≤ n → n ≤ 8 → IsFilled n
unfolding IsFilled filled_sign
filled_sign_lem =
    width_elim IsFilled (λ from to a b c d. ground arith) (λ from to a b c d. ground arith)
      (λ from to a b c d. ground arith) (λ from to a b c d. ground arith)
      (λ from to a b c d. ground arith) (λ from to a b c d. ground arith)
      (λ from to a b c d. ground arith) (λ from to a b c d. ground arith)

pub signed_bytes-Holds :
    (buf : List ℕ) (offset n from to : ℕ)
    → 1 ≤ n
    → n ≤ 8
    → Holds buf offset n (to + 2 ^ 64 - from)
    → from < 2 ^ 63
    → to < 2 ^ 63
    → to < from + 2 ^ (n * 8 - 1)
    → from ≤ to + 2 ^ (n * 8 - 1)
    → u64 (from + signed_bytes buf offset n) ≡ to
unfolding signed_bytes filled_sign IsFilled
signed_bytes-Holds buf offset n from to pos le held from_lt to_lt above below =
    let v = to + 2 ^ 64 - from in
    let last : get_or buf (offset + n - 1) 0 ≡ v / 2 ^ ((n - 1) * 8) % 256 =
      let place : offset + n - 1 ≡ offset + (n - 1) = omega arith in
      ap (λ k. get_or buf k 0) place ∙ held (n - 1) (omega arith) in
    let filled = sign_fill_lem (8 - n) n (v % 2 ^ (n * 8)) (omega arith) (mod-lt v (pow_pos n)) in
    let value = filled_sign_lem n pos le from to from_lt to_lt above below in
    rw (last, or_bytes-Holds buf offset n v le held, filled, value) (omega arith)
