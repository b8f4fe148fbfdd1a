-- ===== src/Acquire/BadSector/Marks.antt =====
-- Which blocks the map of bad_sector.rs calls bad.
use vajra_forensics_platform.Prelude.{
  ℕ, zero, suc, ◌+◌, ◌<◌, ◌^◌, ◌≡◌, refl, ap, Bool, Bool-cases, inl, inr, ◌||◌, ◌&&◌, List, [], ◌∷◌,
  String, ltb, leb, ◌==◌, All, length, u64, length-replicate, arith,
}
use vajra_forensics_platform.Acquire.BadSector.{
  UnreadableRange, BadSectorMap, push_range, record_unreadable, any_holds, is_lba_bad,
  placeholder_from, fill_placeholder,
}

-- A range that ends at the last block number or before, and is not empty.
unfoldable pub InBounds : UnreadableRange → Type 0
InBounds r = (0 < r.block_count) × (r.start_lba + r.block_count < 2 ^ 64)

unfoldable pub AllInBounds : List UnreadableRange → Type 0
unfolding InBounds
AllInBounds rs = All InBounds rs

abbrev pub is_within : ℕ → ℕ → ℕ → Bool
is_within start count lba = leb start lba && ltb lba (start + count)

push_range-AllInBounds :
    (start count : ℕ) (details : String) (rs : List UnreadableRange)
    → 0 < count
    → start + count < 2 ^ 64
    → AllInBounds rs
    → AllInBounds (push_range start count details rs)
unfolding push_range AllInBounds
push_range-AllInBounds start count details [] pos fits inside = ((pos, fits), tt)
push_range-AllInBounds start count details (r ∷ []) pos fits ((p, b), rest) =
    elim (Bool-cases (u64 (r.start_lba + r.block_count) == start)) [
      | inl t ↦ rw t ((ground (arith, t), ground (arith, t)), tt)
      | inr t ↦ rw t ((p, b), ((pos, fits), tt))
    ]
push_range-AllInBounds start count details (r ∷ q ∷ rs) pos fits (p, rest) =
    (p, push_range-AllInBounds start count details (q ∷ rs) pos fits rest)

any_holds-push_range :
    (start count : ℕ) (details : String) (rs : List UnreadableRange) (lba : ℕ)
    → start + count < 2 ^ 64
    → AllInBounds rs
    → any_holds lba (push_range start count details rs)
      ≡ (any_holds lba rs || is_within start count lba)
unfolding push_range any_holds AllInBounds
any_holds-push_range start count details [] lba fits inside = ground arith
any_holds-push_range start count details (r ∷ []) lba fits ((p, b), rest) = ground arith
any_holds-push_range start count details (r ∷ q ∷ rs) lba fits (p, rest) =
    ground (arith, any_holds-push_range start count details (q ∷ rs) lba fits rest)

-- Recording a range marks its blocks, keeps every mark and marks no other block, whether the
-- range is merged with the last one or not; the ranges of the map are not empty and fit in 64-bit
-- block numbers, as does the new one, and so do the ranges after it.
pub is_lba_bad-record_unreadable :
    (start count block_size : ℕ) (details : String) (m : BadSectorMap) (lba : ℕ)
    → start + count < 2 ^ 64
    → AllInBounds m.unreadable_ranges
    → AllInBounds (record_unreadable start count block_size details m).unreadable_ranges
      × (is_lba_bad lba (record_unreadable start count block_size details m)
          ≡ (is_lba_bad lba m || is_within start count lba))
unfolding record_unreadable is_lba_bad
is_lba_bad-record_unreadable start count block_size details m lba fits inside =
    elim (Bool-cases (count == 0)) [
      | inl t ↦ rw t (inside, ground arith)
      | inr t ↦ rw t (
        push_range-AllInBounds start count details m.unreadable_ranges (ground (arith, t)) fits
            inside,
        any_holds-push_range start count details m.unreadable_ranges lba fits inside,
      )
    ]

-- A placeholder fills its buffer.
length-placeholder_from : (i n : ℕ) (pattern : List ℕ) → length (placeholder_from i n pattern) ≡ n
unfolding placeholder_from
length-placeholder_from i zero pattern = refl
length-placeholder_from i (suc n) pattern = ap suc (length-placeholder_from (i + 1) n pattern)

pub length-fill_placeholder : (n : ℕ) (pattern : List ℕ) → length (fill_placeholder n pattern) ≡ n
unfolding fill_placeholder
length-fill_placeholder n pattern =
    ground (arith, length-replicate {A = ℕ} n 0, length-placeholder_from 0 n pattern)
