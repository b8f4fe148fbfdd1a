-- ===== src/Ntfs/Parser/Places.antt =====
-- The records that the scan of parser.rs comes to, and those that it finds by number.
use vajra_forensics_platform.Prelude.{
  ℕ, zero, suc, ◌+◌, ◌-◌, ◌*◌, ◌/◌, ◌^◌, ◌<◌, ◌≡◌, refl, sym, subst, true, ◌&&◌, inl, inr,
  Bool-cases, Option, none, some, List, [], ◌∷◌, ◌++◌, ltb, leb, ◌==◌, if◌then◌else◌, u64, arith,
}
use vajra_forensics_platform.Ntfs.Parser.{find_lba, records_from, scan_from}

-- The place that stands with a number in a list, the first one if there are more.
abbrev pub place_of : ℕ → List (ℕ × ℕ) → Option ℕ
place_of n [] = none
place_of n ((m, place) ∷ places) =
    let rest = place_of n places in if m == n then some place else rest

-- The number of the records in the extents.
abbrev pub total_records : ℕ → List (ℕ × ℕ) → ℕ
total_records spr [] = 0
total_records spr ((start, count) ∷ extents) = count / spr + total_records spr extents

place_of-records_from :
    (spr start current r n num : ℕ)
    → (rest : List (ℕ × ℕ)) → current + r + n < 2 ^ 64
    → place_of num (records_from spr start current r n ++ rest) ≡ (
        if leb (current + r) num && ltb num (current + r + n)
        then some (u64 (start + u64 ((num - current) * spr)))
        else place_of num rest)
unfolding records_from
place_of-records_from spr start current r zero num rest lt = ground arith
place_of-records_from spr start current r (suc n) num rest lt =
    let ih = place_of-records_from spr start current (r + 1) n num rest (omega arith) in
    elim (Bool-cases (u64 (current + r) == num)) [
      | inl e ↦
          let inside : (leb (current + r) num && ltb num (current + r + suc n)) ≡ true =
            ground (arith, e) in
          let ahead : num - current ≡ r = ground (arith, e) in rw (e, inside, ahead) refl
      | inr ne ↦
          let later : (leb (current + r) num && ltb num (current + r + suc n))
              ≡ (leb (current + (r + 1)) num && ltb num (current + (r + 1) + n)) =
            ground (arith, ne) in
          rw (ne, later) ih
    ]

-- The place at which a record is read by its number is the place at which the scan of the table
-- comes to that number, and there is none when the scan does not come to it, while the records
-- counted before and in the extents are less than 2 ^ 64.
pub find_lba-scan_from :
    (spr current num : ℕ) (extents : List (ℕ × ℕ))
    → current + total_records spr extents < 2 ^ 64
    → find_lba spr num current extents ≡ place_of num (scan_from spr current extents)
unfolding find_lba scan_from
find_lba-scan_from spr current num [] lt = refl
find_lba-scan_from spr current num ((start, count) ∷ extents) lt =
    let next : u64 (current + count / spr) ≡ current + count / spr = omega arith in
    let ih = find_lba-scan_from spr (current + count / spr) num extents (omega arith) in
    let here =
      place_of-records_from spr start current 0 (count / spr) num
        (scan_from spr (current + count / spr) extents) (omega arith) in
    let first : current + 0 ≡ current = omega arith in
    let found : Option ℕ = some (u64 (start + u64 ((num - current) * spr))) in
    rw (next, ih)
      (sym (
        subst
          (λ (k : ℕ).
            place_of num (
              records_from spr start current 0 (count / spr)
              ++ scan_from spr (current + count / spr) extents)
            ≡ (if leb k num && ltb num (k + count / spr)
                then found
                else place_of num (scan_from spr (current + count / spr) extents)))
          first here))
