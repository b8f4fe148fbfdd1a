-- ===== src/Raid/Galois/Pairs.antt =====
-- `reconstruct_2_data` of galois.rs, on a stripe with two data blocks apart.
use mathlib.Core.List.{map-append}
use vajra_forensics_platform.Prelude.{
  ℕ, ◌+◌, ◌<◌, ◌≡◌, ◌≢◌, refl, sym, ap, ap₂, ◌∙◌, bit_xor, bit_xor_cancel, bit_xor_pos,
  bit_xor_cancel_left, bit_xor-lt, List, [], ◌∷◌, ◌++◌, some, arith, length, replicate, length-map,
}
use vajra_forensics_platform.Raid.Galois.{
  galois, add, mul, inv, g_pow, xor_into, xor_all, mul_all, enumerate, blocks_of, compute_p_parity,
  compute_q_parity, solve_pair, reconstruct_2_data,
}
use vajra_forensics_platform.Raid.Galois.Field.{
  mul-bit_xor, bit_xor-mul, mul_assoc, mul_comm, one-mul, mul-inv, inv-lt, g_pow-lt,
  g_pow_injective,
}
use vajra_forensics_platform.Raid.Galois.Blocks.{
  xor_into-zeros, xor_all_missing_two, scale, weighted, mul_all-xor_all, enumerate-append,
  blocks_of-enumerate,
}
use vajra_forensics_platform.Raid.Galois.Recovery.{enumerate_around, IsBytes}

-- The columns of a stripe but the two after `pre` and after `mid`, each with its index.
abbrev pub all_but_two : List (List ℕ) → List (List ℕ) → List (List ℕ) → List (ℕ × List ℕ)
all_but_two pre mid post =
    enumerate 0 pre
    ++ (enumerate (length pre + 1) mid ++ enumerate (length pre + 1 + length mid + 1) post)

-- The byte that the solution of the two parity equations gives.
solve_byte :
    (gx gy x y : ℕ)
    → gx < 256
    → gy < 256
    → x < 256
    → y < 256
    → gy ≢ gx
    → mul galois
        (bit_xor (bit_xor (mul galois gx x) (mul galois gy y)) (mul galois gx (bit_xor x y)))
        (inv galois (bit_xor gy gx))
      ≡ y
solve_byte gx gy x y hgx hgy hx hy ne =
    let d : ℕ = bit_xor gy gx in
    let d_pos : 0 < d = bit_xor_pos gy gx ne in
    let d_lt : d < 256 = bit_xor-lt 8 gy gx hgy hgx in
    ap (λ n. mul galois n (inv galois d))
      (ap (bit_xor (bit_xor (mul galois gx x) (mul galois gy y))) (mul-bit_xor gx x y hgx hx hy)
        ∙ bit_xor_cancel_left (mul galois gx x) (mul galois gy y) (mul galois gx y)
        ∙ sym (bit_xor-mul gy gx y hgy hgx hy)
        ∙ mul_comm d y)
    ∙ mul_assoc y d (inv galois d) hy d_lt (inv-lt d d_pos d_lt)
    ∙ ap (mul galois y) (mul-inv d d_pos d_lt)
    ∙ mul_comm y 1
    ∙ one-mul y hy

-- The last loop solves every byte position.
solve_pair_lem :
    (gx gy : ℕ) (xs ys out_x out_y : List ℕ)
    → gx < 256
    → gy < 256
    → gy ≢ gx
    → IsBytes xs
    → IsBytes ys
    → length xs ≡ length ys
    → length xs ≡ length out_x
    → length xs ≡ length out_y
    → solve_pair galois gx
        (inv galois (add galois gy gx))
        (xor_into xs ys)
        (xor_into (scale gx xs) (scale gy ys))
        out_x
        out_y
      ≡ some (xs, ys)
unfolding solve_pair add xor_into
solve_pair_lem gx gy [] [] [] [] hgx hgy ne bx by e ex ey = refl
solve_pair_lem gx gy [] [] [] (o ∷ out) hgx hgy ne bx by e ex ey = absurd (omega arith)
solve_pair_lem gx gy [] [] (o ∷ out) out_y hgx hgy ne bx by e ex ey = absurd (omega arith)
solve_pair_lem gx gy [] (y ∷ ys) out_x out_y hgx hgy ne bx by e ex ey = absurd (omega arith)
solve_pair_lem gx gy (x ∷ xs) [] out_x out_y hgx hgy ne bx by e ex ey = absurd (omega arith)
solve_pair_lem gx gy (x ∷ xs) (y ∷ ys) [] out_y hgx hgy ne bx by e ex ey = absurd (omega arith)
solve_pair_lem gx gy (x ∷ xs) (y ∷ ys) (o ∷ out_x) [] hgx hgy ne bx by e ex ey =
    absurd (omega arith)
solve_pair_lem gx gy (x ∷ xs) (y ∷ ys) (o ∷ out_x) (p ∷ out_y) hgx hgy ne bx by e ex ey =
    rw
      (
        solve_byte gx gy x y hgx hgy bx.0 by.0 ne,
        bit_xor_cancel x y,
        solve_pair_lem gx gy xs ys out_x out_y hgx hgy ne bx.1 by.1 (omega arith) (omega arith)
            (omega arith),
      )
      refl

module _ (pre mid post : List (List ℕ)) (x y : List ℕ) where
  abbrev stripe : List (List ℕ)
  stripe = pre ++ x ∷ (mid ++ y ∷ post)

  abbrev pub index_y : ℕ
  index_y = length pre + 1 + length mid

  -- The columns that survive, as blocks and as blocks times their coefficients.
  kept_p : blocks_of (all_but_two pre mid post) ≡ pre ++ (mid ++ post)
  kept_p =
      map-append _ (enumerate 0 pre) _
      ∙ ap₂ ◌++◌ (blocks_of-enumerate 0 pre) (
          map-append _ (enumerate (length pre + 1) mid) _
          ∙ ap₂ ◌++◌ (blocks_of-enumerate (length pre + 1) mid)
              (blocks_of-enumerate (index_y + 1) post))

  abbrev weights_pre : List (List ℕ)
  weights_pre = weighted (enumerate 0 pre)

  abbrev weights_mid : List (List ℕ)
  weights_mid = weighted (enumerate (length pre + 1) mid)

  abbrev weights_post : List (List ℕ)
  weights_post = weighted (enumerate (index_y + 1) post)

  kept_q : weighted (all_but_two pre mid post) ≡ weights_pre ++ (weights_mid ++ weights_post)
  kept_q =
      map-append _ (enumerate 0 pre) _
      ∙ ap (◌++◌ weights_pre) (map-append _ (enumerate (length pre + 1) mid) _)

  stripe_q :
      weighted (enumerate 0 stripe)
      ≡ weights_pre
        ++ scale (g_pow galois (length pre)) x
          ∷ (weights_mid ++ scale (g_pow galois index_y) y ∷ weights_post)
  unfolding enumerate
  stripe_q =
      ap weighted (enumerate_around pre (mid ++ y ∷ post) x)
      ∙ map-append _ (enumerate 0 pre) _
      ∙ ap (λ ws. weights_pre ++ scale (g_pow galois (length pre)) x ∷ ws)
          (ap weighted (enumerate-append (length pre + 1) mid (y ∷ post))
            ∙ map-append _ (enumerate (length pre + 1) mid) _)

  p_residue_two :
      (out_p : List ℕ)
      → length x ≡ length out_p
      → xor_all (compute_p_parity stripe out_p) (blocks_of (all_but_two pre mid post))
        ≡ xor_into x y
  unfolding compute_p_parity
  p_residue_two out_p e =
      ap (xor_all (xor_all (replicate (length out_p) 0) stripe)) kept_p
      ∙ xor_all_missing_two (replicate (length out_p) 0) x y pre mid post
      ∙ ap (λ o. xor_into o y) (xor_into-zeros (length out_p) x e)

  q_residue_two :
      (out_q : List ℕ)
      → length x ≡ length out_q
      → mul_all galois (compute_q_parity galois stripe out_q) (all_but_two pre mid post)
        ≡ xor_into (scale (g_pow galois (length pre)) x) (scale (g_pow galois index_y) y)
  unfolding compute_q_parity
  q_residue_two out_q e =
      let zeros : List ℕ = replicate (length out_q) 0 in
      let gx : List ℕ = scale (g_pow galois (length pre)) x in
      mul_all-xor_all (mul_all galois zeros (enumerate 0 stripe)) (all_but_two pre mid post)
      ∙ ap₂ xor_all (mul_all-xor_all zeros (enumerate 0 stripe) ∙ ap (xor_all zeros) stripe_q)
          kept_q
      ∙ xor_all_missing_two zeros gx (scale (g_pow galois index_y) y) weights_pre weights_mid
          weights_post
      ∙ ap (λ o. xor_into o (scale (g_pow galois index_y) y))
          (xor_into-zeros (length out_q) gx
            (length-map x (mul galois (g_pow galois (length pre))) ∙ e))

  indices_ne : index_y < 255 → g_pow galois index_y ≢ g_pow galois (length pre)
  indices_ne fits same =
      absurd (omega (arith, g_pow_injective index_y (length pre) fits (omega arith) same))

  -- Two lost data blocks of a stripe come back from the other blocks and from P and Q, when all
  -- blocks and buffers have one length, the lost blocks are bytes, and the index of the second is
  -- below 255.
  pub reconstruct_2_data_lem :
      (out_p out_q out_x out_y : List ℕ)
      → index_y < 255
      → IsBytes x
      → IsBytes y
      → length x ≡ length y
      → length x ≡ length out_p
      → length x ≡ length out_q
      → length x ≡ length out_x
      → length x ≡ length out_y
      → reconstruct_2_data galois
          (all_but_two pre mid post)
          (compute_p_parity stripe out_p)
          (compute_q_parity galois stripe out_q)
          (length pre)
          index_y
          out_x
          out_y
        ≡ some (x, y)
  unfolding reconstruct_2_data
  reconstruct_2_data_lem out_p out_q out_x out_y fits bx by e ep eq ex ey =
      let gx : ℕ = g_pow galois (length pre) in
      let gy : ℕ = g_pow galois index_y in
      ap₂ (λ p q. solve_pair galois gx (inv galois (add galois gy gx)) p q out_x out_y)
        (p_residue_two out_p ep) (q_residue_two out_q eq)
      ∙ solve_pair_lem gx gy x y out_x out_y (g_pow-lt (length pre)) (g_pow-lt index_y)
          (indices_ne fits) bx by e ex ey
