-- ===== src/Prelude/Words.antt =====
-- Casts to the fixed widths, and little-endian fields of a byte buffer.
use Prim.Native.Nat.{ℕ, ◌+◌, ◌-◌, ◌*◌, ◌%◌, ◌^◌, compare, Ordering}
use mathlib.Core.List.{List, [], ◌∷◌}
use mathlib.Core.Bool.{Bool, true, false}
use vajra_forensics_platform.Prelude.Lists.{get_or, take, drop}
use vajra_forensics_platform.Prelude.Tests.{◌==◌, if◌then◌else◌}

abbrev pub u8 : ℕ → ℕ
u8 n = n % 2 ^ 8

abbrev pub u16 : ℕ → ℕ
u16 n = n % 2 ^ 16

abbrev pub u32 : ℕ → ℕ
u32 n = n % 2 ^ 32

abbrev pub u64 : ℕ → ℕ
u64 n = n % 2 ^ 64

-- `from_le_bytes` of the unsigned integers, on the bytes at an offset.
abbrev pub le16 : List ℕ → ℕ → ℕ
le16 buf i = get_or buf i 0 + 2 ^ 8 * get_or buf (i + 1) 0

abbrev pub le32 : List ℕ → ℕ → ℕ
le32 buf i = le16 buf i + 2 ^ 16 * le16 buf (i + 2)

abbrev pub le64 : List ℕ → ℕ → ℕ
le64 buf i = le32 buf i + 2 ^ 32 * le32 buf (i + 4)

-- `buf[start..end]`, and the comparison of two byte slices.
abbrev pub slice : List ℕ → ℕ → ℕ → List ℕ
slice buf start end = take (end - start) (drop start buf)

abbrev pub bytes_eq : List ℕ → List ℕ → Bool
bytes_eq [] [] = true
bytes_eq [] (y ∷ ys) = false
bytes_eq (x ∷ xs) [] = false
bytes_eq (x ∷ xs) (y ∷ ys) = if x == y then bytes_eq xs ys else false

-- Signed integers: `negsuc n` is -(n + 1).
pub data ℤ : Type 0 where
  pos : ℕ → ℤ
  negsuc : ℕ → ℤ

-- a - b, as an integer.
abbrev pub sub_ℕ : ℕ → ℕ → ℤ
sub_ℕ a b = elim (compare b a) [ Ordering.gt ↦ negsuc (b - a - 1) | _ ↦ pos (a - b) ]
