-- ===== src/Raid/Galois.antt =====
-- crates/vajra-raid/src/galois.rs. A byte is a number below 256, a block is a list of bytes, and an
-- output buffer that the source fills in place is an argument and a result.
pub mod Tables
pub mod Field
pub mod Blocks
pub mod Recovery
pub mod Pairs
use mathlib.Core.Option
use vajra_forensics_platform.Prelude.{
  ℕ, zero, suc, ◌+◌, ◌-◌, ◌*◌, ◌%◌, ◌^◌, ◌≡◌, refl, bit_xor, bit_and, Bool, List, [], ◌∷◌, map,
  Option, none, some, ltb, ◌==◌, ◌||◌, if◌then◌else◌, length, get_or, set, replicate,
}

pub gf_poly : ℕ
gf_poly = 0x11d

pub record GaloisField : Type 0 where
  pub exp_table : List ℕ
  pub log_table : List ℕ
  pub inv_table : List ℕ

-- The variables of the first loop of `GaloisField::new`.
pub record Filling : Type 0 where
  pub exps : List ℕ
  pub logs : List ℕ
  pub val : ℕ

-- `val <<= 1; if (val & 0x100) != 0 { val ^= GF_POLY }`, on a `u16`.
pub next_val : ℕ → ℕ
unfolding gf_poly
next_val val =
    let doubled = val * 2 % 2 ^ 16 in
    if bit_and doubled 0x100 == 0 then doubled else bit_xor doubled gf_poly

-- One round of the first loop; `val as u8` keeps the low eight bits.
pub fill_round : ℕ → Filling → Filling
unfolding next_val
fill_round i s = record {
  exps = set (set s.exps i (s.val % 256)) (i + 255) (s.val % 256);
  logs = set s.logs s.val (i % 256);
  val = next_val s.val;
}

-- The first loop at index `i`, with `rounds` rounds left.
pub fill : ℕ → ℕ → Filling → Filling
unfolding fill_round
fill zero i s = s
fill (suc rounds) i s = fill rounds (i + 1) (fill_round i s)

-- The second loop at index `i`, with `rounds` rounds left.
pub fill_inv : ℕ → ℕ → List ℕ → List ℕ → List ℕ → List ℕ
fill_inv zero i exps logs invs = invs
fill_inv (suc rounds) i exps logs invs =
    fill_inv rounds (i + 1) exps logs (set invs i (get_or exps ((255 - get_or logs i 0) % 255) 0))

-- `exp_table[510] = exp_table[0]; exp_table[511] = exp_table[1]`.
pub wrap_exps : List ℕ → List ℕ
wrap_exps exps = let once = set exps 510 (get_or exps 0 0) in set once 511 (get_or once 1 0)

pub field_of : Filling → GaloisField
unfolding wrap_exps fill_inv
field_of s =
    let exps = wrap_exps s.exps in
    record {
      exp_table = exps;
      log_table = s.logs;
      inv_table = fill_inv 255 1 exps s.logs (set (replicate 256 0) 0 0);
    }

pub galois : GaloisField
unfolding fill field_of
galois = field_of (fill 255 0 (record { exps = replicate 512 0; logs = replicate 256 0; val = 1 }))

-- `add`, `mul`, `div`, `inv` and `g_pow`. A division by zero panics, which is `none`.
module _ (f : GaloisField) where
  pub add : ℕ → ℕ → ℕ
  add a b = bit_xor a b

  pub mul : ℕ → ℕ → ℕ
  mul a b =
      if a == 0 || b == 0
      then 0
      else get_or f.exp_table (get_or f.log_table a 0 + get_or f.log_table b 0) 0

  pub div : ℕ → ℕ → Option ℕ
  div a b =
      if a == 0
      then some 0
      else if b == 0
      then none
      else some (get_or f.exp_table (get_or f.log_table a 0 + 255 - get_or f.log_table b 0) 0)

  pub inv : ℕ → ℕ
  inv a = get_or f.inv_table a 0

  pub g_pow : ℕ → ℕ
  g_pow power = get_or f.exp_table (power % 255) 0

-- `for (o, &d) in out.iter_mut().zip(block.iter()) { *o ^= d }`: `zip` ends with the shorter.
unfoldable pub xor_into : List ℕ → List ℕ → List ℕ
xor_into [] block = []
xor_into (o ∷ out) [] = o ∷ out
xor_into (o ∷ out) (d ∷ block) = bit_xor o d ∷ xor_into out block

-- The same loop over several blocks, one after the other.
unfoldable pub xor_all : List ℕ → List (List ℕ) → List ℕ
unfolding xor_into
xor_all out [] = out
xor_all out (block ∷ blocks) = xor_all (xor_into out block) blocks

-- `compute_p_parity`: `out_p.fill(0)`, then every block.
pub compute_p_parity : List (List ℕ) → List ℕ → List ℕ
unfolding xor_all
compute_p_parity data_blocks out_p = xor_all (replicate (length out_p) 0) data_blocks

module _ (f : GaloisField) where
  -- `for (q, &d) in out.iter_mut().zip(block.iter()) { *q ^= self.mul(coeff, d) }`.
  pub mul_into : ℕ → List ℕ → List ℕ → List ℕ
  unfolding mul
  mul_into coeff [] block = []
  mul_into coeff (q ∷ out) [] = q ∷ out
  mul_into coeff (q ∷ out) (d ∷ block) = bit_xor q (mul f coeff d) ∷ mul_into coeff out block

  -- The same loop over several blocks with their column indices.
  pub mul_all : List ℕ → List (ℕ × List ℕ) → List ℕ
  unfolding mul_into g_pow
  mul_all out [] = out
  mul_all out ((i, block) ∷ blocks) = mul_all (mul_into (g_pow f i) out block) blocks

-- `data_blocks.iter().enumerate()`, from the index `i`.
pub enumerate {ℓ} : {A : Type ℓ} → ℕ → List A → List (ℕ × A)
enumerate i [] = []
enumerate i (x ∷ xs) = (i, x) ∷ enumerate (i + 1) xs

-- The blocks of a list with column indices.
abbrev pub blocks_of : List (ℕ × List ℕ) → List (List ℕ)
blocks_of = map (λ p. p.1)

-- `out_missing.copy_from_slice(p_block)` panics unless the lengths agree, so the output is the
-- block that is copied.
pub reconstruct_with_p : List (ℕ × List ℕ) → List ℕ → List ℕ
unfolding xor_all
reconstruct_with_p intact_data p_block = xor_all p_block (blocks_of intact_data)

module _ (f : GaloisField) where
  pub compute_q_parity : List (List ℕ) → List ℕ → List ℕ
  unfolding mul_all enumerate
  compute_q_parity data_blocks out_q =
      mul_all f (replicate (length out_q) 0) (enumerate 0 data_blocks)

  -- `for (m, &q) in out_missing.iter_mut().zip(q_sum.iter()) { *m = self.mul(inv_gx, q) }`.
  pub store_scaled : ℕ → List ℕ → List ℕ → List ℕ
  unfolding mul
  store_scaled c [] q_sum = []
  store_scaled c (m ∷ out) [] = m ∷ out
  store_scaled c (m ∷ out) (q ∷ q_sum) = mul f c q ∷ store_scaled c out q_sum

  pub reconstruct_with_q : List (ℕ × List ℕ) → List ℕ → ℕ → List ℕ → List ℕ
  unfolding mul_all store_scaled inv g_pow
  reconstruct_with_q intact_data q_block missing_idx out_missing =
      store_scaled (inv f (g_pow f missing_idx)) out_missing (mul_all f q_block intact_data)

  -- The last loop of `reconstruct_2_data`, which overwrites both outputs byte by byte; `none` is the
  -- panic of an index past the end of `p_xy`, `q_xy` or `out_x`.
  pub solve_pair : ℕ → ℕ → List ℕ → List ℕ → List ℕ → List ℕ → Option (List ℕ × List ℕ)
  unfolding mul add
  solve_pair gx denom_inv p_xy q_xy out_x [] = some (out_x, [])
  solve_pair gx denom_inv [] q_xy out_x (y ∷ out_y) = none
  solve_pair gx denom_inv (p ∷ p_xy) [] out_x (y ∷ out_y) = none
  solve_pair gx denom_inv (p ∷ p_xy) (q ∷ q_xy) [] (y ∷ out_y) = none
  solve_pair gx denom_inv (p ∷ p_xy) (q ∷ q_xy) (x ∷ out_x) (y ∷ out_y) =
      let dy = mul f (add f q (mul f gx p)) denom_inv in
      Option.map (λ r. (add f p dy ∷ r.0, dy ∷ r.1)) (solve_pair gx denom_inv p_xy q_xy out_x out_y)

  pub reconstruct_2_data :
      List (ℕ × List ℕ) → List ℕ → List ℕ → ℕ → ℕ → List ℕ → List ℕ → Option (List ℕ × List ℕ)
  unfolding xor_all mul_all g_pow inv add solve_pair
  reconstruct_2_data intact_data p_block q_block idx_x idx_y out_x out_y =
      let p_xy = xor_all p_block (blocks_of intact_data) in
      let q_xy = mul_all f q_block intact_data in
      let gx = g_pow f idx_x in
      let gy = g_pow f idx_y in solve_pair gx (inv f (add f gy gx)) p_xy q_xy out_x out_y
