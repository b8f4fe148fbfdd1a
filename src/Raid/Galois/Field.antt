-- ===== src/Raid/Galois/Field.antt =====
-- The arithmetic of galois.rs on bytes, by logarithms.
use native.Mathlib.Nat.{add_comm}
use vajra_forensics_platform.Prelude.{
  ℕ, zero, suc, ◌+◌, ◌-◌, ◌%◌, ◌<◌, ◌≡◌, refl, sym, ap, ◌∙◌, bit_xor, bit_xor-lt, some, arith,
  get_or,
}
use vajra_forensics_platform.Raid.Galois.{galois, mul, div, inv, g_pow}
use vajra_forensics_platform.Raid.Galois.Tables.{
  power, exp_table_lem, log_table_lem, log-exp, inv_table_lem, power_period, power-lt,
  power-bit_xor, power-add, power-zero, power-none, log-one,
}

-- The logarithm that the table holds.
abbrev log : ℕ → ℕ
log a = get_or galois.log_table a 0

-- A product is a number of multiplications by the generator.
pub mul-power : (a b : ℕ) → 0 < a → a < 256 → b < 256 → mul galois a b ≡ power (log a) b
unfolding mul
mul-power a zero p h k = ground (arith, power-zero (log a))
mul-power a (suc b) p h k = ground (
  arith,
  log_table_lem a p h,
  log_table_lem (suc b),
  exp_table_lem (log a + log (suc b)),
  power-add (log a) (log (suc b)) 1,
)

pub zero-mul : (b : ℕ) → mul galois 0 b ≡ 0
unfolding mul
zero-mul b = ground arith

pub mul_comm : (a b : ℕ) → mul galois a b ≡ mul galois b a
unfolding mul
mul_comm a b = ground arith

pub mul-lt : (a b : ℕ) → a < 256 → b < 256 → mul galois a b < 256
mul-lt zero b h k = rw zero-mul (omega arith)
mul-lt (suc a) b h k = rw (mul-power (suc a) b (omega arith) h k) (power-lt (log (suc a)) b k)

pub mul-zero : (a : ℕ) → mul galois a 0 ≡ 0
mul-zero a = mul_comm a 0 ∙ zero-mul a

-- The multiplication of the field by its tables distributes over the addition, on bytes.
pub mul-bit_xor :
    (a b c : ℕ)
    → a < 256
    → b < 256
    → c < 256
    → mul galois a (bit_xor b c) ≡ bit_xor (mul galois a b) (mul galois a c)
mul-bit_xor zero b c h k l = rw (zero-mul (bit_xor b c), zero-mul b, zero-mul c)
mul-bit_xor (suc a) b c h k l =
    rw
      (
        mul-power (suc a) (bit_xor b c) (omega arith) h (bit_xor-lt 8 b c k l),
        mul-power (suc a) b (omega arith) h k,
        mul-power (suc a) c (omega arith) h l,
      )
      (power-bit_xor (log (suc a)) b c k l)

pub bit_xor-mul :
    (a b c : ℕ)
    → a < 256
    → b < 256
    → c < 256
    → mul galois (bit_xor a b) c ≡ bit_xor (mul galois a c) (mul galois b c)
bit_xor-mul a b c h k l =
    rw (mul_comm (bit_xor a b) c, mul_comm a c, mul_comm b c) (mul-bit_xor c a b l h k)

power_comm : (m n v : ℕ) → power m (power n v) ≡ power n (power m v)
power_comm m n v = sym (power-add m n v) ∙ ap (λ k. power k v) (add_comm m n) ∙ power-add n m v

-- The middle factor of three comes last.
mul_left_comm :
    (a b c : ℕ)
    → a < 256
    → b < 256
    → c < 256
    → mul galois c (mul galois a b) ≡ mul galois a (mul galois c b)
mul_left_comm zero b c h k l = rw (zero-mul b, zero-mul (mul galois c b)) (mul-zero c)
mul_left_comm (suc a) b zero h k l =
    rw (zero-mul b, zero-mul (mul galois (suc a) b)) (sym (mul-zero (suc a)))
mul_left_comm (suc a) b (suc c) h k l =
    rw
      (
        mul-power (suc c) (mul galois (suc a) b) (omega arith) l (mul-lt (suc a) b h k),
        mul-power (suc a) (mul galois (suc c) b) (omega arith) h (mul-lt (suc c) b l k),
        mul-power (suc a) b (omega arith) h k,
        mul-power (suc c) b (omega arith) l k,
      )
      (power_comm (log (suc c)) (log (suc a)) b)

-- The multiplication of the field by its tables is associative on bytes.
pub mul_assoc :
    (a b c : ℕ)
    → a < 256
    → b < 256
    → c < 256
    → mul galois (mul galois a b) c ≡ mul galois a (mul galois b c)
mul_assoc a b c h k l =
    mul_comm (mul galois a b) c ∙ mul_left_comm a b c h k l ∙ ap (mul galois a) (mul_comm c b)

pub one-mul : (b : ℕ) → b < 256 → mul galois 1 b ≡ b
one-mul b k =
    mul-power 1 b (omega arith) (omega arith) k ∙ ap (λ n. power n b) log-one ∙ power-none b

-- The inverse of a byte that is not zero.
pub mul-inv : (a : ℕ) → 0 < a → a < 256 → mul galois a (inv galois a) ≡ 1
unfolding mul inv
mul-inv a p h = ground (arith, inv_table_lem a p h)

pub inv-lt : (a : ℕ) → 0 < a → a < 256 → inv galois a < 256
unfolding inv
inv-lt a p h = (inv_table_lem a p h).1

-- On bytes a division by what is not zero gives a byte, and that quotient times the divisor is
-- the dividend.
div_lem :
    (a b : ℕ)
    → a < 256
    → 0 < b
    → b < 256
    → (q : ℕ) × (div galois a b ≡ some q) × (q < 256) × (mul galois b q ≡ a)
unfolding div
div_lem zero b h p k = (0, refl, omega arith, mul-zero b)
div_lem (suc a) zero h p k = absurd (omega arith)
div_lem (suc a) (suc b) h p k =
    let (bound_a, pow_a) = log_table_lem (suc a) (omega arith) h in
    let (bound_b, pow_b) = log_table_lem (suc b) (omega arith) k in
    let n : ℕ = log (suc a) + 255 - log (suc b) in
    let in_table : get_or galois.exp_table n 0 ≡ power n 1 = exp_table_lem n (omega arith) in
    let small : power n 1 < 256 = power-lt n 1 (omega arith) in
    (
      get_or galois.exp_table n 0,
      ground arith,
      rw in_table small,
      rw (in_table, mul-power (suc b) (power n 1) (omega arith) k small)
          (sym (power-add (log (suc b)) n 1)
            ∙ ap (λ m. power m 1) (omega arith)
            ∙ power-add 255 (log (suc a)) 1
            ∙ power_period (power (log (suc a)) 1) (rw pow_a h)
            ∙ pow_a),
    )

pub g_pow-lt : (i : ℕ) → g_pow galois i < 256
unfolding g_pow
g_pow-lt i = rw (exp_table_lem (i % 255) (omega arith)) (power-lt (i % 255) 1 (omega arith))

-- The powers of the generator below 255 differ.
pub g_pow_injective : (i j : ℕ) → i < 255 → j < 255 → g_pow galois i ≡ g_pow galois j → i ≡ j
unfolding g_pow
g_pow_injective i j h k e =
    omega (arith, log-exp (i % 255) (omega arith), log-exp (j % 255) (omega arith), ap log e)

pos_of_power : (k m : ℕ) → power k m ≡ 1 → 0 < m
pos_of_power k zero e = absurd (omega (arith, power-zero k))
pos_of_power k (suc m) e = omega arith

power_pos : (n : ℕ) → n < 255 → 0 < power n 1
power_pos n h = pos_of_power (255 - n) (power n 1) (
    sym (power-add (255 - n) n 1)
    ∙ ap (λ m. power m 1) (omega arith)
    ∙ power_period 1 (omega arith))

pub g_pow_pos : (i : ℕ) → 0 < g_pow galois i
unfolding g_pow
g_pow_pos i = rw (exp_table_lem (i % 255) (omega arith)) (power_pos (i % 255) (omega arith))
