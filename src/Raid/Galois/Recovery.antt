-- ===== src/Raid/Galois/Recovery.antt =====
-- The reconstructions of galois.rs, on a stripe with one or two data blocks apart.
use mathlib.Core.List.{map-append}
use vajra_forensics_platform.Prelude.{
  ℕ, ◌+◌, ◌<◌, ◌≡◌, refl, sym, ap, ap₂, ◌∙◌, List, [], ◌∷◌, ◌++◌, arith, length, replicate, All,
  length-map,
}
use vajra_forensics_platform.Raid.Galois.{
  galois, mul, inv, g_pow, xor_all, mul_all, enumerate, blocks_of, compute_p_parity,
  compute_q_parity, reconstruct_with_p, store_scaled, reconstruct_with_q,
}
use vajra_forensics_platform.Raid.Galois.Field.{
  mul_assoc, mul_comm, one-mul, mul-inv, inv-lt, g_pow-lt, g_pow_pos,
}
use vajra_forensics_platform.Raid.Galois.Blocks.{
  xor_into-zeros, xor_all_missing, scale, weighted, mul_all-xor_all, enumerate-append,
  blocks_of-enumerate,
}

-- A block of bytes.
abbrev pub IsBytes : List ℕ → Type 0
IsBytes = All (λ b. b < 256)

-- The columns of a stripe but the one after `pre`, each with its index.
abbrev pub all_but_one : List (List ℕ) → List (List ℕ) → List (ℕ × List ℕ)
all_but_one pre post = enumerate 0 pre ++ enumerate (length pre + 1) post

pub enumerate_around :
    (pre post : List (List ℕ)) (d : List ℕ)
    → enumerate 0 (pre ++ d ∷ post)
      ≡ enumerate 0 pre ++ (length pre, d) ∷ enumerate (length pre + 1) post
unfolding enumerate
enumerate_around pre post d =
    enumerate-append 0 pre (d ∷ post)
    ∙ ap (λ k. enumerate 0 pre ++ (k, d) ∷ enumerate (k + 1) post) (omega arith)

blocks_of-all_but_one : (pre post : List (List ℕ)) → blocks_of (all_but_one pre post) ≡ pre ++ post
blocks_of-all_but_one pre post =
    map-append (λ p. p.1) (enumerate 0 pre) (enumerate (length pre + 1) post)
    ∙ ap₂ ◌++◌ (blocks_of-enumerate 0 pre) (blocks_of-enumerate (length pre + 1) post)

-- One lost data block of a stripe comes back from the other blocks and from P, when it has the
-- length of the buffer.
reconstruct_with_p-compute_p_parity :
    (pre post : List (List ℕ)) (d out_p : List ℕ)
    → length d ≡ length out_p
    → reconstruct_with_p (all_but_one pre post) (compute_p_parity (pre ++ d ∷ post) out_p) ≡ d
unfolding reconstruct_with_p compute_p_parity
reconstruct_with_p-compute_p_parity pre post d out_p e =
    ap (xor_all (xor_all (replicate (length out_p) 0) (pre ++ d ∷ post)))
      (blocks_of-all_but_one pre post)
    ∙ xor_all_missing (replicate (length out_p) 0) d pre post
    ∙ xor_into-zeros (length out_p) d e

-- Every column times its power of the generator, with one column apart.
weighted_around :
    (pre post : List (List ℕ)) (d : List ℕ)
    → weighted (enumerate 0 (pre ++ d ∷ post))
      ≡ weighted (enumerate 0 pre)
        ++ scale (g_pow galois (length pre)) d ∷ weighted (enumerate (length pre + 1) post)
weighted_around pre post d =
    ap weighted (enumerate_around pre post d) ∙ map-append _ (enumerate 0 pre) _

-- Folding the surviving columns into Q leaves the lost one times its coefficient.
q_residue :
    (pre post : List (List ℕ)) (d out_q : List ℕ)
    → length d ≡ length out_q
    → mul_all galois (compute_q_parity galois (pre ++ d ∷ post) out_q) (all_but_one pre post)
      ≡ scale (g_pow galois (length pre)) d
unfolding compute_q_parity
q_residue pre post d out_q e =
    let zeros : List ℕ = replicate (length out_q) 0 in
    let lost : List ℕ = scale (g_pow galois (length pre)) d in
    mul_all-xor_all (mul_all galois zeros (enumerate 0 (pre ++ d ∷ post))) (all_but_one pre post)
    ∙ ap₂ xor_all
        (mul_all-xor_all zeros (enumerate 0 (pre ++ d ∷ post))
          ∙ ap (xor_all zeros) (weighted_around pre post d))
        (map-append _ (enumerate 0 pre) _)
    ∙ xor_all_missing zeros lost (weighted (enumerate 0 pre))
        (weighted (enumerate (length pre + 1) post))
    ∙ xor_into-zeros (length out_q) lost (length-map d (mul galois (g_pow galois (length pre))) ∙ e)

store_scaled-scale :
    (c : ℕ) (d out : List ℕ)
    → 0 < c
    → c < 256
    → IsBytes d
    → length d ≡ length out
    → store_scaled galois (inv galois c) out (scale c d) ≡ d
unfolding store_scaled
store_scaled-scale c [] [] p h b e = refl
store_scaled-scale c [] (o ∷ out) p h b e = absurd (omega arith)
store_scaled-scale c (x ∷ d) [] p h b e = absurd (omega arith)
store_scaled-scale c (x ∷ d) (o ∷ out) p h b e =
    ap₂ ◌∷◌
      (sym (mul_assoc (inv galois c) c x (inv-lt c p h) h b.0)
        ∙ ap (λ k. mul galois k x) (mul_comm (inv galois c) c ∙ mul-inv c p h)
        ∙ one-mul x b.0)
      (store_scaled-scale c d out p h b.1 (omega arith))

-- One lost data block of a stripe comes back from the other blocks and from Q, when it consists
-- of bytes and has the length of the buffers.
pub reconstruct_with_q-compute_q_parity :
    (pre post : List (List ℕ)) (d out_q out : List ℕ)
    → IsBytes d
    → length d ≡ length out_q
    → length d ≡ length out
    → reconstruct_with_q galois
        (all_but_one pre post)
        (compute_q_parity galois (pre ++ d ∷ post) out_q)
        (length pre)
        out
      ≡ d
unfolding reconstruct_with_q
reconstruct_with_q-compute_q_parity pre post d out_q out b e e' =
    ap (store_scaled galois (inv galois (g_pow galois (length pre))) out)
      (q_residue pre post d out_q e)
    ∙ store_scaled-scale (g_pow galois (length pre)) d out (g_pow_pos (length pre))
        (g_pow-lt (length pre)) b e'
