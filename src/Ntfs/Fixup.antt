-- ===== src/Ntfs/Fixup.antt =====
-- crates/vajra-fs-ntfs/src/mft.rs, apply_mft_fixup: the update sequence of a record. The last two
-- bytes of each of its sectors hold a signature; what they replaced is in an array in the header.
pub mod Sectors
pub mod Restore
use vajra_forensics_platform.Prelude.{
  ℕ, zero, suc, ◌+◌, ◌-◌, ◌*◌, ◌||◌, Bool, not, List, [], ◌∷◌, ltb, ◌==◌, if◌then◌else◌, length,
  get_or, set, slice, bytes_eq, le16, le32, Result, ok, err,
}
use vajra_forensics_platform.Ntfs.Boot.{NtfsError, fixup_failed, invalid_mft_magic}

-- "FILE" and "BAAD".
abbrev pub mft_magic_file : List ℕ
mft_magic_file = 70 ∷ 73 ∷ 76 ∷ 69 ∷ []

abbrev pub mft_magic_baad : List ℕ
mft_magic_baad = 66 ∷ 65 ∷ 65 ∷ 68 ∷ []

unfoldable pub has_magic : List ℕ → Bool
has_magic buffer =
    bytes_eq (slice buffer 0 4) mft_magic_file || bytes_eq (slice buffer 0 4) mft_magic_baad

-- The copy of a replacement over the end of a sector.
pub replace_end : List ℕ → ℕ → ℕ → List ℕ
replace_end buffer end repl =
    set (set buffer end (get_or buffer repl 0)) (end + 1) (get_or buffer (repl + 1) 0)

-- The sectors from the `i`th on, `n` of them. The buffer is changed in place, so it comes back with
-- the result, errors included.
pub fix_from : ℕ → ℕ → ℕ → ℕ → ℕ → List ℕ → List ℕ × Result {0} NtfsError Unit
unfolding replace_end
fix_from zero i upd_off expected_sig record_num buffer = (buffer, ok tt)
fix_from (suc n) i upd_off expected_sig record_num buffer =
    let end = i * 512 - 2 in
    let fixed = replace_end buffer end (upd_off + i * 2) in
    let rest = fix_from n (i + 1) upd_off expected_sig record_num fixed in
    if ltb (length buffer) (end + 2)
    then (buffer, ok tt)
    else if le16 buffer end == expected_sig
    then rest
    else (buffer, err (fixup_failed record_num))

unfoldable pub apply_mft_fixup : List ℕ → ℕ → List ℕ × Result {0} NtfsError Unit
unfolding has_magic fix_from
apply_mft_fixup buffer record_num =
    let upd_off = le16 buffer 4 in
    let upd_cnt = le16 buffer 6 in
    if ltb (length buffer) 48
    then (buffer, err (fixup_failed record_num))
    else if not (has_magic buffer)
    then (buffer, err (invalid_mft_magic (le32 buffer 0)))
    else if upd_cnt == 0 || ltb (length buffer) (upd_off + upd_cnt * 2)
    then (buffer, err (fixup_failed record_num))
    else fix_from (upd_cnt - 1) 1 upd_off (le16 buffer upd_off) record_num buffer
