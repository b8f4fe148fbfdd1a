-- ===== src/Ntfs/Fixup/Sectors.antt =====
-- What apply_mft_fixup of mft.rs makes of the ends of the sectors.
use vajra_forensics_platform.Prelude.{
  ℕ, suc, ◌+◌, ◌-◌, ◌*◌, ◌/◌, ◌%◌, ◌≤◌, ◌<◌, ◌≡◌, refl, ◌∙◌, ◌⊎◌, inl, inr, subst, Bool, true,
  false, Bool-cases, List, ltb, if◌then◌else◌, ◌&&◌, arith, length, length-set, get_or, get_or-set,
  get_or-set_other, set,
}
use vajra_forensics_platform.Ntfs.Fixup.{replace_end}

pub length-replace_end :
    (buffer : List ℕ) (end repl : ℕ) → length (replace_end buffer end repl) ≡ length buffer
unfolding replace_end
length-replace_end buffer end repl = omega (
  arith,
  length-set (set buffer end (get_or buffer repl 0)) (end + 1) (get_or buffer (repl + 1) 0),
  length-set buffer end (get_or buffer repl 0),
)

pub replace_end_other :
    (buffer : List ℕ) (end repl j : ℕ)
    → (end ≡ j → ⊥)
    → (end + 1 ≡ j → ⊥)
    → get_or (replace_end buffer end repl) j 0 ≡ get_or buffer j 0
unfolding replace_end
replace_end_other buffer end repl j ne ne' =
    get_or-set_other (set buffer end (get_or buffer repl 0)) (end + 1) j _ 0 ne'
    ∙ get_or-set_other buffer end j _ 0 ne

replace_end_first :
    (buffer : List ℕ) (end repl : ℕ)
    → end < length buffer
    → get_or (replace_end buffer end repl) end 0 ≡ get_or buffer repl 0
unfolding replace_end
replace_end_first buffer end repl lt =
    get_or-set_other (set buffer end (get_or buffer repl 0)) (end + 1) end _ 0 (λ e. omega arith)
    ∙ get_or-set buffer end _ 0 lt

replace_end_second :
    (buffer : List ℕ) (end repl : ℕ)
    → end + 1 < length buffer
    → get_or (replace_end buffer end repl) (end + 1) 0 ≡ get_or buffer (repl + 1) 0
unfolding replace_end
replace_end_second buffer end repl lt =
    get_or-set (set buffer end (get_or buffer repl 0)) (end + 1) _ 0
      (omega (arith, length-set buffer end (get_or buffer repl 0)))

-- Whether a position is at the end of one of the `n` sectors from the `i`th on.
abbrev pub is_end : ℕ → ℕ → ℕ → ℕ → Bool
is_end n i size j =
    ltb 509 (j % 512)
    && ltb (i * 512 - 3) j
    && ltb (j / 512 + 1) (i + n)
    && ltb (j / 512 * 512 + 511) size

-- Where the array keeps the byte that belongs at a position at the end of a sector.
abbrev pub kept_at : ℕ → ℕ → ℕ
kept_at upd_off j = upd_off + (j / 512 + 1) * 2 + (j % 512 - 510)

-- The byte that belongs at a position once the `n` sectors from the `i`th on are whole.
pub byte_from : ℕ → ℕ → ℕ → List ℕ → ℕ → ℕ
byte_from n i upd_off buffer j =
    if is_end n i (length buffer) j then get_or buffer (kept_at upd_off j) 0 else get_or buffer j 0

place-cases : (j end : ℕ) → (end ≡ j) ⊎ ((end + 1 ≡ j) ⊎ ((end ≡ j → ⊥) × (end + 1 ≡ j → ⊥)))
place-cases j end = ground arith

-- The first of the sectors is dealt with alone.
is_end_first :
    (n i size : ℕ)
    → 1 ≤ i
    → i * 512 ≤ size
    → (is_end n (i + 1) size (i * 512 - 2) ≡ false) × (is_end (suc n) i size (i * 512 - 2) ≡ true)
is_end_first n i size pos le = (ground arith, ground arith)

is_end_second :
    (n i size : ℕ)
    → 1 ≤ i
    → i * 512 ≤ size
    → (is_end n (i + 1) size (i * 512 - 2 + 1) ≡ false)
      × (is_end (suc n) i size (i * 512 - 2 + 1) ≡ true)
is_end_second n i size pos le = (ground arith, ground arith)

is_end_other :
    (n i size j : ℕ)
    → 1 ≤ i
    → (i * 512 - 2 ≡ j → ⊥)
    → (i * 512 - 2 + 1 ≡ j → ⊥)
    → is_end n (i + 1) size j ≡ is_end (suc n) i size j
is_end_other n i size j pos ne ne' = ground arith

byte_from_first :
    (n i upd_off : ℕ) (buffer : List ℕ)
    → 1 ≤ i
    → i * 512 ≤ length buffer
    → byte_from n (i + 1) upd_off (replace_end buffer (i * 512 - 2) (upd_off + i * 2)) (i * 512 - 2)
      ≡ byte_from (suc n) i upd_off buffer (i * 512 - 2)
unfolding byte_from
byte_from_first n i upd_off buffer pos le =
    let kept : kept_at upd_off (i * 512 - 2) ≡ upd_off + i * 2 = omega arith in
    rw
      (
        length-replace_end buffer (i * 512 - 2) (upd_off + i * 2),
        (is_end_first n i (length buffer) pos le).0,
        (is_end_first n i (length buffer) pos le).1,
        kept,
      )
      (replace_end_first buffer (i * 512 - 2) (upd_off + i * 2) (omega arith))

byte_from_second :
    (n i upd_off : ℕ) (buffer : List ℕ)
    → 1 ≤ i
    → i * 512 ≤ length buffer
    → byte_from n
        (i + 1)
        upd_off
        (replace_end buffer (i * 512 - 2) (upd_off + i * 2))
        (i * 512 - 2 + 1)
      ≡ byte_from (suc n) i upd_off buffer (i * 512 - 2 + 1)
unfolding byte_from
byte_from_second n i upd_off buffer pos le =
    let kept : kept_at upd_off (i * 512 - 2 + 1) ≡ upd_off + i * 2 + 1 = omega arith in
    rw
      (
        length-replace_end buffer (i * 512 - 2) (upd_off + i * 2),
        (is_end_second n i (length buffer) pos le).0,
        (is_end_second n i (length buffer) pos le).1,
        kept,
      )
      (replace_end_second buffer (i * 512 - 2) (upd_off + i * 2) (omega arith))

byte_from_other :
    (n i upd_off : ℕ) (buffer : List ℕ) (j : ℕ)
    → 1 ≤ i
    → upd_off + (i + suc n) * 2 ≤ 510
    → (i * 512 - 2 ≡ j → ⊥)
    → (i * 512 - 2 + 1 ≡ j → ⊥)
    → byte_from n (i + 1) upd_off (replace_end buffer (i * 512 - 2) (upd_off + i * 2)) j
      ≡ byte_from (suc n) i upd_off buffer j
unfolding byte_from
byte_from_other n i upd_off buffer j pos fits ne ne' =
    let end = i * 512 - 2 in
    let there = replace_end_other buffer end (upd_off + i * 2) j ne ne' in
    rw
      (
        length-replace_end buffer end (upd_off + i * 2),
        is_end_other n i (length buffer) j pos ne ne',
      )
      (elim (Bool-cases (is_end (suc n) i (length buffer) j)) [
        | inl e ↦
            let p<end : kept_at upd_off j < i * 512 - 2 = ground (arith, e) in
            rw (e) (
              replace_end_other buffer end (upd_off + i * 2) (kept_at upd_off j) (λ q. omega arith)
                (λ q. omega arith))
        | inr e ↦ rw (e) there
      ])

pub byte_from_step :
    (n i upd_off : ℕ) (buffer : List ℕ)
    → 1 ≤ i
    → upd_off + (i + suc n) * 2 ≤ 510
    → i * 512 ≤ length buffer
    → (j : ℕ)
    → byte_from n (i + 1) upd_off (replace_end buffer (i * 512 - 2) (upd_off + i * 2)) j
      ≡ byte_from (suc n) i upd_off buffer j
byte_from_step n i upd_off buffer pos fits le j =
    let Goal = λ (j : ℕ).
      byte_from n (i + 1) upd_off (replace_end buffer (i * 512 - 2) (upd_off + i * 2)) j
      ≡ byte_from (suc n) i upd_off buffer j in
    elim (place-cases j (i * 512 - 2)) [
      | inl e ↦ subst Goal e (byte_from_first n i upd_off buffer pos le)
      | inr (inl e) ↦ subst Goal e (byte_from_second n i upd_off buffer pos le)
      | inr (inr (ne, ne')) ↦ byte_from_other n i upd_off buffer j pos fits ne ne'
    ]

-- No sector from the `i`th on is in the buffer.
pub byte_from_past :
    (n i upd_off : ℕ) (buffer : List ℕ) (j : ℕ)
    → 1 ≤ i
    → length buffer < i * 512
    → byte_from n i upd_off buffer j ≡ get_or buffer j 0
unfolding byte_from
byte_from_past n i upd_off buffer j pos lt =
    let outside : is_end n i (length buffer) j ≡ false = ground arith in rw (outside) refl

pub byte_from-zero :
    (i upd_off : ℕ) (buffer : List ℕ) (j : ℕ) → byte_from 0 i upd_off buffer j ≡ get_or buffer j 0
unfolding byte_from
byte_from-zero i upd_off buffer j =
    let outside : is_end 0 i (length buffer) j ≡ false = ground arith in rw (outside) refl
