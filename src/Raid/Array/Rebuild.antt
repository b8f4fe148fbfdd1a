-- ===== src/Raid/Array/Rebuild.antt =====
-- `reconstruct_block` at level 5 with one drive lost: the blocks of the others, folded together.
use native.Mathlib.Nat.{mod-eq_of_lt}
use vajra_forensics_platform.Prelude.{
  ℕ, ◌+◌, ◌*◌, ◌<◌, ◌≤◌, ◌^◌, ◌≡◌, sym, ap, ap₂, ◌∙◌, Option, none, some, List, [], ◌∷◌, ◌++◌, map,
  arith, length, replicate,
}
use vajra_forensics_platform.Raid.Error.{ok}
use vajra_forensics_platform.Raid.Layout.{raid5, DiskBlockLocation}
use vajra_forensics_platform.Raid.Galois.{xor_into, xor_all}
use vajra_forensics_platform.Raid.Galois.Blocks.{
  xor_into-zeros, xor_into_cancel, xor_all-append, xor_all_last, xor_all-nil, xor_all-cons,
}
use vajra_forensics_platform.Raid.Array.{Member, RaidArray, xor_others, reconstruct_level, row_lba}

-- Every member answers a read with its block, of the length asked for.
abbrev pub Answers : ℕ → ℕ → ℕ → List Member → List (List ℕ) → Type 0
Answers len lba count [] [] = Unit
Answers len lba count [] (b ∷ bs) = ⊥
Answers len lba count (m ∷ ms) [] = ⊥
Answers len lba count (m ∷ ms) (b ∷ bs) =
    (m.read_blocks lba count ≡ ok b) × (length b ≡ len) × Answers len lba count ms bs

-- What the members answer at one place: the blocks before and after the drive `lost`, its own, and
-- the parity of all of them, which is zero.
pub record ParityAt (len : ℕ) (pre : List Member) (lost : Member) (post : List Member)
    (lba count : ℕ) : Type 0 where
  pub before : List (List ℕ)
  pub own : List ℕ
  pub after : List (List ℕ)
  pub before_answers : Answers len lba count pre before
  pub own_answer : lost.read_blocks lba count ≡ ok own
  pub own_length : length own ≡ len
  pub after_answers : Answers len lba count post after
  pub parity : xor_all (replicate len 0) (before ++ own ∷ after) ≡ replicate len 0

-- The block of one drive is the sum of the others.
pub others-own :
    {len lba count : ℕ} {pre post : List Member} {lost : Member}
    (p : ParityAt len pre lost post lba count)
    → xor_all (replicate len 0) (p.before ++ p.after) ≡ p.own
others-own {len} p =
    let zeros : List ℕ = replicate len 0 in
    let others : List ℕ = xor_all zeros (p.before ++ p.after) in
    sym (xor_into_cancel others p.own)
    ∙ ap (λ o. xor_into o p.own) (sym (xor_all_last zeros p.own p.before p.after) ∙ p.parity)
    ∙ xor_into-zeros len p.own p.own_length

xor_others_before :
    (len lba : ℕ) (loc : DiskBlockLocation) (count disk stop : ℕ) (acc : List ℕ) (pre : List Member)
    (bs : List (List ℕ)) (rest : List (Option Member))
    → Answers len lba count pre bs
    → disk + length pre ≡ stop
    → stop ≤ loc.member_idx
    → xor_others lba loc count disk acc (map some pre ++ rest)
      ≡ xor_others lba loc count stop (xor_all acc bs) rest
unfolding xor_others
xor_others_before len lba loc count disk stop acc [] [] rest h e k =
    ap₂ (λ d o. xor_others lba loc count d o rest) (omega arith) (sym (xor_all-nil acc))
xor_others_before len lba loc count disk stop acc [] (b ∷ bs) rest h e k = absurd h
xor_others_before len lba loc count disk stop acc (m ∷ pre) [] rest h e k = absurd h
xor_others_before len lba loc count disk stop acc (m ∷ pre) (b ∷ bs) rest h e k = ground (
  arith,
  h.0,
  xor_others_before len lba loc count (disk + 1) stop (xor_into acc b) pre bs rest h.2,
  xor_all-cons acc b bs,
)

xor_others_after :
    (len lba : ℕ) (loc : DiskBlockLocation) (count disk : ℕ) (acc : List ℕ) (post : List Member)
    (bs : List (List ℕ))
    → Answers len lba count post bs
    → loc.member_idx < disk
    → xor_others lba loc count disk acc (map some post) ≡ ok (xor_all acc bs)
unfolding xor_others
xor_others_after len lba loc count disk acc [] [] h k = ap ok (sym (xor_all-nil acc))
xor_others_after len lba loc count disk acc [] (b ∷ bs) h k = absurd h
xor_others_after len lba loc count disk acc (m ∷ post) [] h k = absurd h
xor_others_after len lba loc count disk acc (m ∷ post) (b ∷ bs) h k = ground (
  arith,
  h.0,
  xor_others_after len lba loc count (disk + 1) (xor_into acc b) post bs h.2,
  xor_all-cons acc b bs,
)

skip_lost :
    (len lba : ℕ) (loc : DiskBlockLocation) (count disk : ℕ) (acc : List ℕ) (post : List Member)
    (bs : List (List ℕ))
    → Answers len lba count post bs
    → loc.member_idx ≡ disk
    → xor_others lba loc count disk acc (none ∷ map some post) ≡ ok (xor_all acc bs)
unfolding xor_others
skip_lost len lba loc count disk acc post bs h e =
    ground (arith, xor_others_after len lba loc count (disk + 1) acc post bs h)

-- With the drive `lost` missing, its block comes back.
pub reconstruct_raid5 :
    (a : RaidArray) (loc : DiskBlockLocation) (count : ℕ) (pre : List Member) (lost : Member)
    (post : List Member)
    → a.members ≡ map some pre ++ none ∷ map some post
    → loc.member_idx ≡ length pre
    → count * a.geometry.sector_size < 2 ^ 32
    → (p : ParityAt (count * a.geometry.sector_size) pre lost post (row_lba a.geometry loc) count)
    → reconstruct_level raid5 a loc count ≡ ok p.own
unfolding reconstruct_level xor_others
reconstruct_raid5 a loc count pre lost post shape place fits p =
    let len : ℕ = count * a.geometry.sector_size in
    let lba : ℕ = row_lba a.geometry loc in
    let zeros : List ℕ = replicate len 0 in
    ap₂ (λ n ms. xor_others lba loc count 0 (replicate n 0) ms) (mod-eq_of_lt fits) shape
    ∙ xor_others_before len lba loc count 0 (length pre) zeros pre p.before (none ∷ map some post)
        p.before_answers (omega arith) (omega arith)
    ∙ skip_lost len lba loc count (length pre) (xor_all zeros p.before) post p.after p.after_answers
        place
    ∙ ap ok (sym (xor_all-append zeros p.before p.after) ∙ others-own p)
