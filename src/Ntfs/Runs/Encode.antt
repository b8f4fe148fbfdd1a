-- ===== src/Ntfs/Runs/Encode.antt =====
-- Run lists written out, and read back by decode_data_runs of mft.rs.
use native.Mathlib.Nat.{div-div-eq-div-mul}
use vajra_forensics_platform.Prelude.{
  ℕ, zero, suc, ◌+◌, ◌-◌, ◌*◌, ◌/◌, ◌%◌, ◌^◌, ◌≤◌, ◌<◌, ◌≡◌, refl, sym, ap, ◌∙◌, pow_byte_suc, List,
  [], ◌∷◌, ◌++◌, length, get_or, get_or-append_left, get_or-append_right, u64, arith,
}
use vajra_forensics_platform.Ntfs.Boot.{NtfsBoot, lcn_to_lba}
use vajra_forensics_platform.Ntfs.Runs.Numbers.{Holds}

-- A run of clusters, and the widths of its two numbers.
pub record Run : Type 0 where
  pub len_bytes : ℕ
  pub off_bytes : ℕ
  pub lcn : ℕ
  pub cluster_count : ℕ

abbrev pub le_bytes : ℕ → ℕ → List ℕ
le_bytes zero v = []
le_bytes (suc n) v = v % 256 ∷ le_bytes n (v / 256)

-- The start of a run is written as its distance to the one before.
abbrev pub encode_run : ℕ → Run → List ℕ
encode_run prev r =
    ((r.len_bytes + 16 * r.off_bytes) ∷ le_bytes r.len_bytes r.cluster_count)
    ++ le_bytes r.off_bytes (r.lcn + 2 ^ 64 - prev)

abbrev pub encode : ℕ → List Run → List ℕ
encode prev [] = 0 ∷ []
encode prev (r ∷ rs) = encode_run prev r ++ encode r.lcn rs

-- The numbers of the runs fit their widths.
abbrev pub AreRuns : ℕ → List Run → Type 0
AreRuns prev [] = Unit
AreRuns prev (r ∷ rs) =
    ((1 ≤ r.len_bytes)
      × (r.len_bytes ≤ 8)
      × (1 ≤ r.off_bytes)
      × (r.off_bytes ≤ 8)
      × (0 < r.cluster_count)
      × (r.cluster_count < 2 ^ (r.len_bytes * 8))
      × (r.lcn < 2 ^ 63)
      × (r.lcn < prev + 2 ^ (r.off_bytes * 8 - 1))
      × (prev ≤ r.lcn + 2 ^ (r.off_bytes * 8 - 1)))
    × AreRuns r.lcn rs

-- Where a run lies on the device.
abbrev pub extent_of : NtfsBoot → Run → ℕ × ℕ
extent_of boot r = (lcn_to_lba boot r.lcn, u64 (r.cluster_count * boot.sectors_per_cluster))

pub length-le_bytes : (n v : ℕ) → length (le_bytes n v) ≡ n
length-le_bytes zero v = refl
length-le_bytes (suc n) v = ap suc (length-le_bytes n (v / 256))

le_bytes-Holds : (n v i : ℕ) → i < n → get_or (le_bytes n v) i 0 ≡ v / 2 ^ (i * 8) % 256
le_bytes-Holds zero v i lt = absurd (omega arith)
le_bytes-Holds (suc n) v zero lt = omega arith
le_bytes-Holds (suc n) v (suc i) lt =
    let power : 256 * 2 ^ (i * 8) ≡ 2 ^ (suc i * 8) = omega (arith, pow_byte_suc i) in
    le_bytes-Holds n (v / 256) i (omega arith)
    ∙ ap (λ k. k % 256) (div-div-eq-div-mul v 256 (2 ^ (i * 8)) ∙ ap (λ d. v / d) power)

-- The bytes of a number between two lists.
pub placed-Holds :
    (before after : List ℕ) (offset n v : ℕ)
    → length before ≡ offset
    → Holds (before ++ (le_bytes n v ++ after)) offset n v
placed-Holds before after offset n v e i lt =
    let tail = le_bytes n v ++ after in
    ap (λ k. get_or (before ++ tail) (k + i) 0) (sym e)
    ∙ get_or-append_right before tail i 0
    ∙ get_or-append_left (le_bytes n v) after i 0 (omega (arith, length-le_bytes n v))
    ∙ le_bytes-Holds n v i lt
