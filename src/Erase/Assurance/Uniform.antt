-- ===== src/Erase/Assurance/Uniform.antt =====
-- What the counts of the layers 3 and 4 of crates/vajra-erase/src/verify say of the blocks.
use vajra_forensics_platform.Prelude.{
  ℕ, ◌+◌, ◌≤◌, ◌<◌, ◌^◌, ◌≡◌, ◌⊎◌, ap, inl, inr, Bool, true, false, Bool-cases, Option, none, some,
  List, [], ◌∷◌, All, leb, length, u64, get_or, Result-cases, ok, bind-ok, ok_injective, arith,
}
use vajra_forensics_platform.Erase.Assurance.{
  Source, is_clean, sample, tally, all_are, count_samples, count_non_conforming,
}

-- A block that can be read and holds one byte throughout.
abbrev pub IsUniform : Source → ℕ → Type 0
IsUniform device lba =
    (bytes : List ℕ) × (device.read_blocks lba 1 ≡ ok bytes) × (b : ℕ) × All (λ x. x ≡ b) bytes

-- A block that lies past the end, or is uniform.
abbrev pub IsWiped : Source → ℕ → Type 0
IsWiped device lba = (device.total_blocks ≤ lba) ⊎ IsUniform device lba

all_are-All : (b : ℕ) (bytes : List ℕ) → all_are b bytes ≡ true → All (λ x. x ≡ b) bytes
unfolding all_are
all_are-All b [] e = tt
all_are-All b (x ∷ bytes) e = (ground (arith, e), all_are-All b bytes (ground (arith, e)))

is_clean-IsUniform :
    (device : Source) (lba : ℕ) → is_clean device lba ≡ ok true → IsUniform device lba
unfolding is_clean
is_clean-IsUniform device lba e = elim (Result-cases (device.read_blocks lba 1)) [
  | inl (bytes, read) ↦
      let same : all_are (get_or bytes 0 0) bytes ≡ true = ground (arith, e, read) in
      (bytes, read, get_or bytes 0 0, all_are-All (get_or bytes 0 0) bytes same)
  | inr (inl (failure, read)) ↦ absurd (ground (arith, e, read))
  | inr (inr read) ↦ absurd (ground (arith, e, read))
]

passed_over : (device : Source) (lba : ℕ) → sample device lba ≡ ok none → device.total_blocks ≤ lba
unfolding sample
passed_over device lba e = elim (Bool-cases (leb device.total_blocks lba)) [
  | inl past ↦ ground (arith, past)
  | inr inside ↦
      let (clean, read, made) =
        bind-ok (is_clean device lba) (λ (c : Bool). ok (some c)) none
          (ground (arith, e, inside)) in
      absurd (ground (arith, made))
]

found_clean :
    (device : Source) (lba : ℕ) → sample device lba ≡ ok (some true) → is_clean device lba ≡ ok true
unfolding sample
found_clean device lba e = elim (Bool-cases (leb device.total_blocks lba)) [
  | inl past ↦ absurd (ground (arith, e, past))
  | inr inside ↦
      let (clean, read, made) =
        bind-ok (is_clean device lba) (λ (c : Bool). ok (some c)) (some true)
          (ground (arith, e, inside)) in
      ground (arith, read, made)
]

-- The count of other blocks grows by one at most, and only where a block is not wiped.
Grows : Source → ℕ → Option Bool → ℕ × ℕ → Type 0
Grows device lba seen counts =
    (counts.1 ≤ (tally seen counts).1)
    × ((tally seen counts).1 ≤ counts.1 + 1)
    × (((tally seen counts).1 ≡ counts.1) → IsWiped device lba)

tally-Grows :
    (device : Source) (lba : ℕ) (seen : Option Bool) (counts : ℕ × ℕ)
    → sample device lba ≡ ok seen
    → counts.1 + 1 < 2 ^ 64
    → Grows device lba seen counts
unfolding Grows
tally-Grows device lba none counts e lt =
    (omega arith, omega arith, λ same. inl (passed_over device lba e))
tally-Grows device lba (some true) counts e lt = (
  omega arith,
  omega arith,
  λ same. inr (is_clean-IsUniform device lba (found_clean device lba e)),
)
tally-Grows device lba (some false) counts e lt =
    (omega arith, omega arith, λ same. absurd (omega (arith, same)))

pub count_samples-IsWiped :
    (device : Source) (lbas : List ℕ) (counts out : ℕ × ℕ)
    → counts.1 + length lbas < 2 ^ 64
    → count_samples device lbas counts ≡ ok out
    → (counts.1 ≤ out.1) × ((out.1 ≡ counts.1) → All (IsWiped device) lbas)
unfolding count_samples Grows
count_samples-IsWiped device [] counts out lt e =
    let same = ok_injective e in (omega (arith, ap (λ (p : ℕ × ℕ). p.1) same), λ h. tt)
count_samples-IsWiped device (lba ∷ lbas) counts out lt e =
    let (seen, found, made) =
      bind-ok (sample device lba) (λ (b : Option Bool). count_samples device lbas (tally b counts))
        out e in
    let (up, one, wiped) = tally-Grows device lba seen counts found (omega (arith, lt)) in
    let (more, rest) =
      count_samples-IsWiped device lbas (tally seen counts) out (omega (arith, lt, one)) made in
    (
      omega (arith, up, more),
      λ same. (wiped (omega (arith, up, more, same)), rest (omega (arith, up, more, same))),
    )

pub count_non_conforming-IsUniform :
    (device : Source) (lbas : List ℕ) (count out : ℕ)
    → count + length lbas < 2 ^ 64
    → count_non_conforming device lbas count ≡ ok out
    → (count ≤ out) × ((out ≡ count) → All (IsUniform device) lbas)
unfolding count_non_conforming
count_non_conforming-IsUniform device [] count out lt e =
    let same = ok_injective e in (omega (arith, same), λ h. tt)
count_non_conforming-IsUniform device (lba ∷ lbas) count out lt e =
    let (clean, read, made) = bind-ok (is_clean device lba) _ out e in
    elim (Bool-cases clean) [
      | inl uniform_here ↦
          let rest : count_non_conforming device lbas count ≡ ok out =
            ground (arith, made, uniform_here) in
          let (more, uniform) =
            count_non_conforming-IsUniform device lbas count out (omega (arith, lt)) rest in
          (more, λ same. (is_clean-IsUniform device lba (cc (read, uniform_here)), uniform same))
      | inr other ↦
          let rest : count_non_conforming device lbas (u64 (count + 1)) ≡ ok out =
            ground (arith, made, other) in
          let (more, uniform) =
            count_non_conforming-IsUniform device lbas (u64 (count + 1)) out (omega (arith, lt))
              rest in
          (omega (arith, more, lt), λ same. absurd (omega (arith, more, lt, same)))
    ]
