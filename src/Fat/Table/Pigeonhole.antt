-- ===== src/Fat/Table/Pigeonhole.antt =====
-- Different numbers below a bound are at most as many as the bound.
use vajra_forensics_platform.Prelude.{
  ℕ, zero, suc, ◌<◌, ◌≤◌, ◌≡◌, refl, Bool-cases, inl, inr, false, List, [], ◌∷◌, ◌==◌,
  if◌then◌else◌, length, All, arith,
}
use vajra_forensics_platform.Fat.Table.{contains}

-- No number occurs twice.
unfoldable pub NoRepeats : List ℕ → Type 0
unfolding contains
NoRepeats [] = Unit
NoRepeats (x ∷ xs) = (contains x xs ≡ false) × NoRepeats xs

unfoldable pub Below : ℕ → List ℕ → Type 0
Below n xs = All (λ x. x < n) xs

without : ℕ → List ℕ → List ℕ
without n [] = []
without n (x ∷ xs) = if x == n then without n xs else x ∷ without n xs

without-absent : (n : ℕ) (xs : List ℕ) → contains n xs ≡ false → without n xs ≡ xs
unfolding without contains
without-absent n [] h = refl
without-absent n (x ∷ xs) h = ground (arith, h, without-absent n xs)

length-without : (n : ℕ) (xs : List ℕ) → NoRepeats xs → length xs ≤ suc (length (without n xs))
unfolding without NoRepeats contains
length-without n [] h = ground arith
length-without n (x ∷ xs) (new, h) = ground (arith, new, without-absent n xs, length-without n xs h)

contains-without :
    (n y : ℕ) (xs : List ℕ) → contains y xs ≡ false → contains y (without n xs) ≡ false
unfolding without contains
contains-without n y [] h = refl
contains-without n y (x ∷ xs) h = ground (arith, h, contains-without n y xs)

NoRepeats-without : (n : ℕ) (xs : List ℕ) → NoRepeats xs → NoRepeats (without n xs)
unfolding without NoRepeats
NoRepeats-without n [] h = tt
NoRepeats-without n (x ∷ xs) (new, h) = elim (Bool-cases (x == n)) [
  | inl t ↦ rw t (NoRepeats-without n xs h)
  | inr t ↦ rw t (contains-without n x xs new, NoRepeats-without n xs h)
]

Below-without : (n : ℕ) (xs : List ℕ) → Below (suc n) xs → Below n (without n xs)
unfolding without Below
Below-without n [] h = tt
Below-without n (x ∷ xs) (lt, h) = elim (Bool-cases (x == n)) [
  | inl t ↦ rw t (Below-without n xs h)
  | inr t ↦ rw t (ground (arith, t), Below-without n xs h)
]

pub NoRepeats-length : (n : ℕ) (xs : List ℕ) → NoRepeats xs → Below n xs → length xs ≤ n
unfolding Below
NoRepeats-length zero [] r b = ground arith
NoRepeats-length zero (x ∷ xs) r (lt, b) = absurd (omega arith)
NoRepeats-length (suc n) xs r b =
    let shorter =
      NoRepeats-length n (without n xs) (NoRepeats-without n xs r) (Below-without n xs b) in
    let bound = length-without n xs r in omega arith
