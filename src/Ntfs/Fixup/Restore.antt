-- ===== src/Ntfs/Fixup/Restore.antt =====
-- The whole of apply_mft_fixup of mft.rs: records that are whole, and records that were torn.
use vajra_forensics_platform.Prelude.{
  ℕ, zero, suc, ◌+◌, ◌-◌, ◌*◌, ◌≤◌, ◌<◌, ◌≡◌, ◌≢◌, refl, sym, ◌∙◌, inl, inr, true, false,
  Bool-cases, List, ltb, ◌==◌, ==_iff, arith, length, get_or, le16, ok, err,
}
use vajra_forensics_platform.Ntfs.Boot.{fixup_failed}
use vajra_forensics_platform.Ntfs.Fixup.{has_magic, replace_end, fix_from, apply_mft_fixup}
use vajra_forensics_platform.Ntfs.Fixup.Sectors.{
  byte_from, byte_from_step, byte_from_past, byte_from-zero, length-replace_end, replace_end_other,
}

-- The `n` sectors from the `i`th on that the buffer holds all end in the signature.
abbrev pub AreSigned : ℕ → ℕ → ℕ → List ℕ → Type 0
AreSigned n i sig buffer =
    (k : ℕ) → i ≤ k → k < i + n → k * 512 ≤ length buffer → le16 buffer (k * 512 - 2) ≡ sig

-- The buffer holds the same number of bytes, and at every position the one that belongs there.
abbrev pub IsRestored : ℕ → ℕ → ℕ → List ℕ → List ℕ → Type 0
IsRestored n i upd_off buffer fixed =
    (length fixed ≡ length buffer) × ((j : ℕ) → get_or fixed j 0 ≡ byte_from n i upd_off buffer j)

le16-replace_end :
    (buffer : List ℕ) (i k repl : ℕ)
    → 1 ≤ i
    → i < k
    → le16 (replace_end buffer (i * 512 - 2) repl) (k * 512 - 2) ≡ le16 buffer (k * 512 - 2)
le16-replace_end buffer i k repl pos lt =
    let low =
      replace_end_other buffer (i * 512 - 2) repl (k * 512 - 2) (λ e. omega arith)
        (λ e. omega arith) in
    let high =
      replace_end_other buffer (i * 512 - 2) repl (k * 512 - 2 + 1) (λ e. omega arith)
        (λ e. omega arith) in
    omega (arith, low, high)

signed_rest :
    (n i sig repl : ℕ) (buffer : List ℕ)
    → 1 ≤ i
    → AreSigned (suc n) i sig buffer
    → AreSigned n (i + 1) sig (replace_end buffer (i * 512 - 2) repl)
signed_rest n i sig repl buffer pos signed k le lt in_buffer =
    le16-replace_end buffer i k repl pos (omega arith)
    ∙ signed k (omega arith) (omega arith)
        (omega (arith, length-replace_end buffer (i * 512 - 2) repl))

Fixed : ℕ → ℕ → ℕ → ℕ → ℕ → List ℕ → Type 0
Fixed n i upd_off sig num buffer =
    (fixed : List ℕ) × (fix_from n i upd_off sig num buffer ≡ (fixed, ok tt))
    × IsRestored n i upd_off buffer fixed

IsRestored-rest :
    (n i upd_off : ℕ) (buffer fixed : List ℕ)
    → 1 ≤ i
    → upd_off + (i + suc n) * 2 ≤ 510
    → i * 512 ≤ length buffer
    → IsRestored n (i + 1) upd_off (replace_end buffer (i * 512 - 2) (upd_off + i * 2)) fixed
    → IsRestored (suc n) i upd_off buffer fixed
IsRestored-rest n i upd_off buffer fixed pos fits le (same, bytes) = (
  same ∙ length-replace_end buffer (i * 512 - 2) (upd_off + i * 2),
  λ j. bytes j ∙ byte_from_step n i upd_off buffer pos fits le j,
)

fix_from_restores :
    (n i upd_off sig num : ℕ) (buffer : List ℕ)
    → 1 ≤ i
    → upd_off + (i + n) * 2 ≤ 510
    → AreSigned n i sig buffer
    → Fixed n i upd_off sig num buffer
unfolding Fixed fix_from
fix_from_restores zero i upd_off sig num buffer pos fits signed =
    (buffer, refl, (refl, λ j. sym (byte_from-zero i upd_off buffer j)))
fix_from_restores (suc n) i upd_off sig num buffer pos fits signed =
    elim (Bool-cases (ltb (length buffer) (i * 512 - 2 + 2))) [
      | inl short ↦ (
        buffer,
        rw (short) refl,
        (refl, λ j. sym (byte_from_past (suc n) i upd_off buffer j pos (ground (arith, short)))),
      )
      | inr long ↦
          let le : i * 512 ≤ length buffer = ground (arith, long) in
          let fixed = replace_end buffer (i * 512 - 2) (upd_off + i * 2) in
          let here : (le16 buffer (i * 512 - 2) == sig) ≡ true =
            (==_iff _ _).1 (signed i (omega arith) (omega arith) le) in
          let rest =
            fix_from_restores n (i + 1) upd_off sig num fixed (omega arith) (omega arith)
              (signed_rest n i sig (upd_off + i * 2) buffer pos signed) in
          (
            rest.0,
            rw (long, here) rest.1,
            IsRestored-rest n i upd_off buffer rest.0 pos fits le rest.2,
          )
    ]

fix_from-torn :
    (n i upd_off sig num k : ℕ) (buffer : List ℕ)
    → 1 ≤ i
    → i ≤ k
    → k < i + n
    → k * 512 ≤ length buffer
    → (le16 buffer (k * 512 - 2) ≡ sig → ⊥)
    → (fix_from n i upd_off sig num buffer).1 ≡ err (fixup_failed num)
unfolding fix_from
fix_from-torn zero i upd_off sig num k buffer pos le lt in_buffer ne = absurd (omega arith)
fix_from-torn (suc n) i upd_off sig num k buffer pos le lt in_buffer ne =
    let fixed = replace_end buffer (i * 512 - 2) (upd_off + i * 2) in
    let long : ltb (length buffer) (i * 512 - 2 + 2) ≡ false = ground arith in
    elim (Bool-cases (le16 buffer (i * 512 - 2) == sig)) [
      | inr torn ↦ rw (long, torn) refl
      | inl whole ↦
          let here = (==_iff _ _).0 whole in
          let i<k : i < k = ground (arith, ne, here) in
          rw (long, whole)
            (fix_from-torn n (i + 1) upd_off sig num k fixed (omega arith) (omega arith)
              (omega arith)
              (omega (arith, length-replace_end buffer (i * 512 - 2) (upd_off + i * 2)))
              (λ e. ne (sym (le16-replace_end buffer i k (upd_off + i * 2) pos i<k) ∙ e)))
    ]

-- A record that passes the checks of its header, with its array before the end of the first sector.
abbrev pub IsRecord : List ℕ → Type 0
IsRecord buffer =
    (48 ≤ length buffer)
    × (has_magic buffer ≡ true)
    × (0 < le16 buffer 6)
    × (le16 buffer 4 + le16 buffer 6 * 2 ≤ length buffer)
    × (le16 buffer 4 + le16 buffer 6 * 2 ≤ 510)

apply_mft_fixup-record :
    (buffer : List ℕ) (num : ℕ)
    → IsRecord buffer
    → apply_mft_fixup buffer num
      ≡ fix_from (le16 buffer 6 - 1) 1 (le16 buffer 4) (le16 buffer (le16 buffer 4)) num buffer
unfolding apply_mft_fixup
apply_mft_fixup-record buffer num (long, magic, counted, fits, before) =
    let a : ltb (length buffer) 48 ≡ false = ground arith in
    let b : (le16 buffer 6 == 0) ≡ false = ground arith in
    let c : ltb (length buffer) (le16 buffer 4 + le16 buffer 6 * 2) ≡ false = ground arith in
    rw (a, magic, b, c) refl

-- A record whose header passes the checks, with its array before the end of the first sector, and
-- whose sectors all end in the signature, is fixed up: it keeps its length, the last two bytes of
-- each protected sector are those that the array keeps for it, and every other byte is as it was.
pub apply_mft_fixup_restores :
    (buffer : List ℕ) (num : ℕ)
    → IsRecord buffer
    → AreSigned (le16 buffer 6 - 1) 1 (le16 buffer (le16 buffer 4)) buffer
    → (fixed : List ℕ) × (apply_mft_fixup buffer num ≡ (fixed, ok tt))
      × IsRestored (le16 buffer 6 - 1) 1 (le16 buffer 4) buffer fixed
unfolding Fixed
apply_mft_fixup_restores buffer num record_ok signed =
    rw (apply_mft_fixup-record buffer num record_ok) (
      fix_from_restores (le16 buffer 6 - 1) 1 (le16 buffer 4) (le16 buffer (le16 buffer 4)) num
        buffer (omega arith) (omega (arith, record_ok.2, record_ok.4)) signed)

-- A record in which one of the protected sectors does not end in the signature is refused, when
-- its header passes the checks and its array lies before the end of the first sector.
pub apply_mft_fixup-torn :
    (buffer : List ℕ) (num k : ℕ)
    → IsRecord buffer
    → 1 ≤ k
    → k < le16 buffer 6
    → k * 512 ≤ length buffer
    → le16 buffer (k * 512 - 2) ≢ le16 buffer (le16 buffer 4)
    → (apply_mft_fixup buffer num).1 ≡ err (fixup_failed num)
apply_mft_fixup-torn buffer num k record_ok pos lt in_buffer ne =
    rw (apply_mft_fixup-record buffer num record_ok) (
      fix_from-torn (le16 buffer 6 - 1) 1 (le16 buffer 4) (le16 buffer (le16 buffer 4)) num k buffer
        (omega arith) pos (omega arith) in_buffer ne)
