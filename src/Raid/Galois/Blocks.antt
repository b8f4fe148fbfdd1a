-- ===== src/Raid/Galois/Blocks.antt =====
-- The in-place loops of galois.rs over whole blocks: `^=` of a block onto a buffer, and of its
-- multiple by a coefficient.
use mathlib.Core.List.{append_assoc}
use vajra_forensics_platform.Prelude.{
  ℕ, suc, ◌+◌, ◌≡◌, refl, sym, ap, ap₂, ◌∙◌, bit_xor, bit_xor_cancel, bit_xor_right_comm,
  zero-bit_xor, List, [], ◌∷◌, ◌++◌, map, arith, length, replicate,
}
use vajra_forensics_platform.Raid.Galois.{
  galois, mul, g_pow, xor_into, xor_all, mul_into, mul_all, enumerate, blocks_of,
}

pub length-xor_into : (out block : List ℕ) → length (xor_into out block) ≡ length out
unfolding xor_into
length-xor_into [] block = refl
length-xor_into (o ∷ out) [] = refl
length-xor_into (o ∷ out) (d ∷ block) = ap suc (length-xor_into out block)

-- Two blocks may be taken in either order, whatever their lengths.
pub xor_into_right_comm :
    (out a b : List ℕ) → xor_into (xor_into out a) b ≡ xor_into (xor_into out b) a
unfolding xor_into
xor_into_right_comm [] a b = refl
xor_into_right_comm (o ∷ out) [] [] = refl
xor_into_right_comm (o ∷ out) [] (y ∷ b) = refl
xor_into_right_comm (o ∷ out) (x ∷ a) [] = refl
xor_into_right_comm (o ∷ out) (x ∷ a) (y ∷ b) =
    ap₂ ◌∷◌ (bit_xor_right_comm o x y) (xor_into_right_comm out a b)

-- A block that is taken twice leaves the buffer as it was.
pub xor_into_cancel : (out a : List ℕ) → xor_into (xor_into out a) a ≡ out
unfolding xor_into
xor_into_cancel [] a = refl
xor_into_cancel (o ∷ out) [] = refl
xor_into_cancel (o ∷ out) (x ∷ a) = ap₂ ◌∷◌ (bit_xor_cancel o x) (xor_into_cancel out a)

pub xor_into-zeros :
    (n : ℕ) (block : List ℕ) → length block ≡ n → xor_into (replicate n 0) block ≡ block
unfolding xor_into
xor_into-zeros ℕ.zero [] e = refl
xor_into-zeros ℕ.zero (d ∷ block) e = absurd (omega arith)
xor_into-zeros (ℕ.suc n) [] e = absurd (omega arith)
xor_into-zeros (ℕ.suc n) (d ∷ block) e =
    ap₂ ◌∷◌ (zero-bit_xor d) (xor_into-zeros n block (omega arith))

pub xor_all-append :
    (out : List ℕ) (xs ys : List (List ℕ)) → xor_all out (xs ++ ys) ≡ xor_all (xor_all out xs) ys
unfolding xor_all
xor_all-append out [] ys = refl
xor_all-append out (x ∷ xs) ys = xor_all-append (xor_into out x) xs ys

-- A block that is taken before the others may be taken after them.
pub xor_all-xor_into :
    (out b : List ℕ) (xs : List (List ℕ))
    → xor_all (xor_into out b) xs ≡ xor_into (xor_all out xs) b
unfolding xor_all
xor_all-xor_into out b [] = refl
xor_all-xor_into out b (x ∷ xs) =
    ap (λ o. xor_all o xs) (xor_into_right_comm out b x) ∙ xor_all-xor_into (xor_into out x) b xs

pub xor_all_cancel : (out : List ℕ) (xs : List (List ℕ)) → xor_all (xor_all out xs) xs ≡ out
unfolding xor_all
xor_all_cancel out [] = refl
xor_all_cancel out (x ∷ xs) =
    ap (λ o. xor_all o xs) (sym (xor_all-xor_into (xor_into out x) x xs))
    ∙ ap (λ o. xor_all (xor_all o xs) xs) (xor_into_cancel out x)
    ∙ xor_all_cancel out xs

-- A block among others may be taken last.
pub xor_all_last :
    (out d : List ℕ) (pre post : List (List ℕ))
    → xor_all out (pre ++ d ∷ post) ≡ xor_into (xor_all out (pre ++ post)) d
unfolding xor_all
xor_all_last out d pre post =
    xor_all-append out pre (d ∷ post)
    ∙ xor_all-xor_into (xor_all out pre) d post
    ∙ ap (λ o. xor_into o d) (sym (xor_all-append out pre post))

-- Folding in every block but one, twice over, leaves that one.
pub xor_all_missing :
    (out d : List ℕ) (pre post : List (List ℕ))
    → xor_all (xor_all out (pre ++ d ∷ post)) (pre ++ post) ≡ xor_into out d
xor_all_missing out d pre post =
    ap (λ o. xor_all o (pre ++ post)) (xor_all_last out d pre post)
    ∙ xor_all-xor_into (xor_all out (pre ++ post)) d (pre ++ post)
    ∙ ap (λ o. xor_into o d) (xor_all_cancel out (pre ++ post))

-- Folding in every block but two, twice over, leaves those two.
pub xor_all_missing_two :
    (out x y : List ℕ) (pre mid post : List (List ℕ))
    → xor_all (xor_all out (pre ++ x ∷ (mid ++ y ∷ post))) (pre ++ (mid ++ post))
      ≡ xor_into (xor_into out x) y
xor_all_missing_two out x y pre mid post =
    let kept : List (List ℕ) = pre ++ (mid ++ post) in
    let inner : xor_all out (pre ++ (mid ++ y ∷ post)) ≡ xor_into (xor_all out kept) y =
      ap (xor_all out) (sym (append_assoc pre mid (y ∷ post)))
      ∙ xor_all_last out y (pre ++ mid) post
      ∙ ap (λ bs. xor_into (xor_all out bs) y) (append_assoc pre mid post) in
    ap (λ o. xor_all o kept)
      (xor_all_last out x pre (mid ++ y ∷ post) ∙ ap (λ o. xor_into o x) inner)
    ∙ xor_all-xor_into (xor_into (xor_all out kept) y) x kept
    ∙ ap (λ o. xor_into o x)
        (xor_all-xor_into (xor_all out kept) y kept
          ∙ ap (λ o. xor_into o y) (xor_all_cancel out kept))
    ∙ xor_into_right_comm out y x

-- Every byte of a block times a coefficient.
abbrev pub scale : ℕ → List ℕ → List ℕ
scale c = map (mul galois c)

pub mul_into-xor_into :
    (c : ℕ) (out block : List ℕ) → mul_into galois c out block ≡ xor_into out (scale c block)
unfolding mul_into xor_into
mul_into-xor_into c [] block = refl
mul_into-xor_into c (o ∷ out) [] = refl
mul_into-xor_into c (o ∷ out) (d ∷ block) =
    ap (◌∷◌ (bit_xor o (mul galois c d))) (mul_into-xor_into c out block)

-- The blocks of a list of columns, each times its power of the generator.
abbrev pub weighted : List (ℕ × List ℕ) → List (List ℕ)
weighted = map (λ p. scale (g_pow galois p.0) p.1)

pub mul_all-xor_all :
    (out : List ℕ) (cols : List (ℕ × List ℕ))
    → mul_all galois out cols ≡ xor_all out (weighted cols)
unfolding mul_all xor_all
mul_all-xor_all out [] = refl
mul_all-xor_all out ((i, block) ∷ cols) =
    ap (λ o. mul_all galois o cols) (mul_into-xor_into (g_pow galois i) out block)
    ∙ mul_all-xor_all (xor_into out (scale (g_pow galois i) block)) cols

pub enumerate-append {ℓ} :
    {A : Type ℓ} (i : ℕ) (xs ys : List A)
    → enumerate i (xs ++ ys) ≡ enumerate i xs ++ enumerate (i + length xs) ys
unfolding enumerate
enumerate-append i [] ys = ap (λ k. enumerate k ys) (omega arith)
enumerate-append i (x ∷ xs) ys = ap (◌∷◌ (i, x)) (
    enumerate-append (i + 1) xs ys ∙ ap (λ k. enumerate (i + 1) xs ++ enumerate k ys) (omega arith))

pub blocks_of-enumerate : (i : ℕ) (xs : List (List ℕ)) → blocks_of (enumerate i xs) ≡ xs
unfolding enumerate
blocks_of-enumerate i [] = refl
blocks_of-enumerate i (x ∷ xs) = ap (◌∷◌ x) (blocks_of-enumerate (i + 1) xs)

pub xor_all-nil : (out : List ℕ) → xor_all out [] ≡ out
unfolding xor_all
xor_all-nil out = refl

pub xor_all-cons :
    (out b : List ℕ) (bs : List (List ℕ)) → xor_all out (b ∷ bs) ≡ xor_all (xor_into out b) bs
unfolding xor_all
xor_all-cons out b bs = refl
