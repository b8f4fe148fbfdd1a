-- ===== src/Raid/Layout/Places.antt =====
-- The arithmetic of stripe places, over a chunk of `c` sectors and `k` data disks.
use native.Mathlib.Nat.{div-add-mod, div-lt_iff_lt-mul, mul-le-mul_right, div-mul-le_self}
use vajra_forensics_platform.Prelude.{
  ℕ, ◌+◌, ◌-◌, ◌*◌, ◌/◌, ◌%◌, ◌≤◌, ◌<◌, ◌≡◌, ap, ap₂, sym, ◌∙◌, u64, arith,
}

-- Below `rows` full rows, the row of a sector is below `rows`.
pub row-lt : (a c k rows : ℕ) → 0 < c → 0 < k → a < rows * c * k → a / c / k < rows
row-lt a c k rows hc hk h = (div-lt_iff_lt-mul hk).1 ((div-lt_iff_lt-mul hc).1 (grind arith))

-- A row below `rows` ends at the end of all rows at the latest.
row_end : (r c rows : ℕ) → r < rows → r * c + c ≤ rows * c
row_end r c rows h = grind arith

-- A lower row ends before a higher one begins.
row_gap : (r s o c : ℕ) → r < s → o < c → r * c + o < s * c
row_gap r s o c h k = grind arith

pub place_injective : (r s o p c : ℕ) → o < c → p < c → r * c + o ≡ s * c + p → (r ≡ s) × (o ≡ p)
place_injective r s o p c ho hp e =
    let same : r ≡ s = ground (arith, row_gap r s o c, row_gap s r p c) in
    (same, omega (arith, ap (λ (t : ℕ). t * c) same))

-- The three coordinates give the sector back.
pub coordinates_injective :
    (a b c k : ℕ) → a / c / k ≡ b / c / k → a / c % k ≡ b / c % k → a % c ≡ b % c → a ≡ b
coordinates_injective a b c k row col off =
    let chunk : a / c ≡ b / c =
      sym (div-add-mod (a / c) k) ∙ ap₂ (λ r d. k * r + d) row col ∙ div-add-mod (b / c) k in
    sym (div-add-mod a c) ∙ ap₂ (λ q o. c * q + o) chunk off ∙ div-add-mod b c

wrap_le : (a x k : ℕ) → a < u64 (u64 x * k) → a < x * k
wrap_le a x k h = omega (arith, mul-le-mul_right k (wrap_one x))
  where
    wrap_one : (x : ℕ) → u64 x ≤ x
    wrap_one x = omega arith

-- No sum or product of a capacity wraps for a sector that the capacity holds.
pub below_capacity :
    (a c k cap off : ℕ)
    → 0 < c
    → 0 < k
    → a < u64 (u64 ((cap - off) / c * c) * k)
    → a / c / k * c + c ≤ cap - off
below_capacity a c k cap off hc hk h =
    let rows : ℕ = (cap - off) / c in
    let row : a / c / k < rows = row-lt a c k rows hc hk (wrap_le a (rows * c) k h) in
    omega (arith, row_end (a / c / k) c rows row, div-mul-le_self (cap - off) c)
