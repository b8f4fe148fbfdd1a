-- ===== src/Prelude/Bytes.antt =====
-- Powers of 256 as powers of two, and the bytes of a number.
use Prim.Native.Nat.{ℕ, suc, ◌+◌, ◌*◌, ◌/◌, ◌%◌, ◌^◌, ◌≤◌, ◌<◌}
use mathlib.Core.Path.{◌≡◌, ap, ◌∙◌}
use native.Mathlib.Nat.{
  pow-suc, mul-le-mul_right, mod-lt, mod-add-div', add-mul-mod_self_right, mod-eq_of_lt,
}
use native.Mathlib.Omega.{arith}

pow_byte : (k : ℕ) → 2 ^ (k + 8) ≡ 2 ^ k * 256
pow_byte k =
    let eight : k + 8 ≡ suc (suc (suc (suc (suc (suc (suc (suc k))))))) = omega arith in
    rw (eight, pow-suc, pow-suc, pow-suc, pow-suc, pow-suc, pow-suc, pow-suc, pow-suc) (omega arith)

pub pow_byte_suc : (n : ℕ) → 2 ^ (suc n * 8) ≡ 2 ^ (n * 8) * 256
pow_byte_suc n = let e : suc n * 8 ≡ n * 8 + 8 = omega arith in rw (e) (pow_byte (n * 8))

-- One more byte of a number, above those that are there.
pub mod_byte : (v d : ℕ) → 0 < d → v % (d * 256) ≡ v % d + v / d % 256 * d
mod_byte v d p =
    let whole : v ≡ v % d + v / d % 256 * d + v / d / 256 * (d * 256) =
      let q : v / d ≡ v / d % 256 + v / d / 256 * 256 = omega arith in
      omega (arith, ap (λ n. n * d) q, mod-add-div' v d) in
    let low = mod-lt v p in
    let high : v / d % 256 * d ≤ 255 * d = mul-le-mul_right d (omega arith) in
    ap (λ n. n % (d * 256)) whole ∙ add-mul-mod_self_right _ _ _ ∙ mod-eq_of_lt (omega arith)

pub byte_lt : (x d : ℕ) → x < 256 → d ≤ 2 ^ 56 → x * d < 2 ^ 64
byte_lt x d lt le = let high : x * d ≤ 255 * d = mul-le-mul_right d (omega arith) in omega arith
