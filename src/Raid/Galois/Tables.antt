-- ===== src/Raid/Galois/Tables.antt =====
-- The tables of galois.rs against repeated multiplication by the generator.
use native.Mathlib.Nat.{zero-add, suc-add}
use vajra_forensics_platform.Prelude.{
  ℕ, zero, suc, ◌+◌, ◌*◌, ◌<◌, ◌≡◌, refl, bit_xor, Bool, true, List, arith, ltb, ◌==◌, ◌&&◌, ◌||◌,
  if◌then◌else◌, get_or, all_below, all_below_sound, ==_iff,
}
use vajra_forensics_platform.Raid.Galois.{galois}

-- Multiplication by the generator 2 in the field: a shift and a reduction by the polynomial 0x11d.
pub times_two : ℕ → ℕ
times_two v = if ltb v 128 then v * 2 else bit_xor (v * 2) 0x11d

-- `n` multiplications by the generator.
pub power : ℕ → ℕ → ℕ
power zero v = v
power (suc n) v = times_two (power n v)

exp_check : List ℕ → Bool
unfolding all_below power times_two
exp_check exps = all_below 512 (λ i. get_or exps i 0 == power i 1)

exp_checked : exp_check galois.exp_table ≡ true
unfolding exp_check galois
exp_checked = refl

-- Every entry of the exponent table, the repeated half and the two last entries included, is that
-- power of two modulo the polynomial, computed by repeated doubling.
pub exp_table_lem : (i : ℕ) → i < 512 → get_or galois.exp_table i 0 ≡ power i 1
unfolding exp_check
exp_table_lem i h =
    (==_iff _ _).0
      (all_below_sound 512 (λ x. get_or galois.exp_table x 0 == power x 1) i exp_checked h)

-- What the logarithm table holds for a byte that is not zero.
abbrev log_of : List ℕ → List ℕ → ℕ → Bool
log_of exps logs a = a == 0 || (ltb (get_or logs a 0) 255 && get_or exps (get_or logs a 0) 0 == a)

log_check : List ℕ → List ℕ → Bool
unfolding all_below
log_check exps logs = all_below 256 (log_of exps logs)

log_checked : log_check galois.exp_table galois.log_table ≡ true
unfolding log_check galois
log_checked = refl

-- The logarithm of a byte that is not zero is below 255, and its power is the byte.
pub log_table_lem :
    (a : ℕ)
    → 0 < a
    → a < 256
    → (get_or galois.log_table a 0 < 255) × (power (get_or galois.log_table a 0) 1 ≡ a)
unfolding log_check
log_table_lem a p h = ground (
  arith,
  all_below_sound 256 (log_of galois.exp_table galois.log_table) a log_checked h,
  exp_table_lem (get_or galois.log_table a 0),
)

exp_log_check : List ℕ → List ℕ → Bool
unfolding all_below
exp_log_check exps logs = all_below 255 (λ i. get_or logs (get_or exps i 0) 0 == i)

exp_log_checked : exp_log_check galois.exp_table galois.log_table ≡ true
unfolding exp_log_check galois
exp_log_checked = refl

-- Below 255 the logarithm undoes the exponent.
pub log-exp : (i : ℕ) → i < 255 → get_or galois.log_table (get_or galois.exp_table i 0) 0 ≡ i
unfolding exp_log_check
log-exp i h = (==_iff _ _).0 (
    all_below_sound 255 (λ x. get_or galois.log_table (get_or galois.exp_table x 0) 0 == x) i
      exp_log_checked h)

inv_check : List ℕ → List ℕ → List ℕ → Bool
unfolding all_below
inv_check exps logs invs = all_below 256 λ a.
    a == 0
    || (ltb 0 (get_or invs a 0)
        && ltb (get_or invs a 0) 256
        && get_or exps (get_or logs a 0 + get_or logs (get_or invs a 0) 0) 0 == 1)

inv_checked : inv_check galois.exp_table galois.log_table galois.inv_table ≡ true
unfolding inv_check galois
inv_checked = refl

-- The inverse table: a byte whose logarithm adds to that of the argument up to a power that is 1.
pub inv_table_lem :
    (a : ℕ)
    → 0 < a
    → a < 256
    → (0 < get_or galois.inv_table a 0)
      × (get_or galois.inv_table a 0 < 256)
      × (get_or galois.exp_table
            (get_or galois.log_table a 0 + get_or galois.log_table (get_or galois.inv_table a 0) 0)
            0
          ≡ 1)
unfolding inv_check
inv_table_lem a p h = ground (
  arith,
  all_below_sound 256
      (λ x.
        x == 0
        || (ltb 0 (get_or galois.inv_table x 0)
            && ltb (get_or galois.inv_table x 0) 256
            && get_or galois.exp_table
                (get_or galois.log_table x 0
                  + get_or galois.log_table (get_or galois.inv_table x 0) 0)
                0
              == 1))
      a inv_checked h,
)

period_check : Bool
unfolding all_below power times_two
period_check = all_below 256 (λ v. power 255 v == v)

period_checked : period_check ≡ true
unfolding period_check
period_checked = refl

-- The generator has order 255.
pub power_period : (v : ℕ) → v < 256 → power 255 v ≡ v
unfolding period_check
power_period v h = (==_iff _ _).0 (all_below_sound 256 (λ v. power 255 v == v) v period_checked h)

linear_row : ℕ → Bool
unfolding all_below times_two
linear_row a = all_below 256 (λ b. times_two (bit_xor a b) == bit_xor (times_two a) (times_two b))

linear_check : Bool
unfolding all_below linear_row
linear_check = all_below 256 linear_row

linear_checked : linear_check ≡ true
unfolding linear_check
linear_checked = refl

-- Multiplication by the generator distributes over addition.
pub times_two-bit_xor :
    (a b : ℕ) → a < 256 → b < 256 → times_two (bit_xor a b) ≡ bit_xor (times_two a) (times_two b)
times_two-bit_xor a b p q = (==_iff _ _).0 (
    all_below_sound 256 (λ b. times_two (bit_xor a b) == bit_xor (times_two a) (times_two b)) b
      (unfold linear_row in
        all_below_sound 256 linear_row a (unfold linear_check in linear_checked) p)
      q)

range_check : Bool
unfolding all_below times_two
range_check = all_below 256 (λ v. ltb (times_two v) 256)

range_checked : range_check ≡ true
unfolding range_check
range_checked = refl

pub times_two-lt : (v : ℕ) → v < 256 → times_two v < 256
unfolding range_check
times_two-lt v h =
    ground (arith, all_below_sound 256 (λ v. ltb (times_two v) 256) v range_checked h)

pub power-lt : (n v : ℕ) → v < 256 → power n v < 256
unfolding power
power-lt zero v h = h
power-lt (suc n) v h = times_two-lt (power n v) (power-lt n v h)

pub power-bit_xor :
    (n a b : ℕ) → a < 256 → b < 256 → power n (bit_xor a b) ≡ bit_xor (power n a) (power n b)
unfolding power
power-bit_xor zero a b p q = refl
power-bit_xor (suc n) a b p q =
    rw (power-bit_xor n a b p q)
      (times_two-bit_xor (power n a) (power n b) (power-lt n a p) (power-lt n b q))

pub power-add : (m n v : ℕ) → power (m + n) v ≡ power m (power n v)
unfolding power
power-add zero n v = rw zero-add
power-add (suc m) n v = rw (suc-add, power-add m n v)

pub power-zero : (n : ℕ) → power n 0 ≡ 0
unfolding power times_two
power-zero zero = refl
power-zero (suc n) = rw (power-zero n)

pub power-none : (v : ℕ) → power 0 v ≡ v
unfolding power
power-none v = refl

pub log-one : get_or galois.log_table 1 0 ≡ 0
unfolding galois
log-one = refl
