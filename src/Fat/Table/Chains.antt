-- ===== src/Fat/Table/Chains.antt =====
-- The chains of `follow_chain` (fat_table.rs).
use mathlib.Core.List.{append-nil, append_assoc}
use vajra_forensics_platform.Prelude.{
  ℕ, zero, suc, ◌+◌, ◌<◌, ◌≤◌, ◌^◌, ◌≡◌, refl, sym, subst, ◌∙◌, Bool-cases, Option-cases, inl, inr,
  true, false, none, some, List, [], ◌∷◌, ◌++◌, ltb, length, All, Result, ok, err, arith,
}
use vajra_forensics_platform.Fat.Bpb.{FatError, chain_loop}
use vajra_forensics_platform.Fat.Table.{
  FatTable, get_next_cluster, is_cluster_free, contains, follow_from, follow_chain,
}
use vajra_forensics_platform.Fat.Table.Entries.{
  get_next_cluster-lt, get_next_cluster-is_cluster_free,
}
use vajra_forensics_platform.Fat.Table.Pigeonhole.{NoRepeats, Below, NoRepeats-length}

-- No number of the second list stands in the first.
unfoldable pub Apart : List ℕ → List ℕ → Type 0
Apart visited cs = All (λ c. contains c visited ≡ false) cs

Apart-cons :
    (x : ℕ) (visited cs : List ℕ)
    → Apart (x ∷ visited) cs
    → (contains x cs ≡ false) × Apart visited cs
unfolding Apart contains
Apart-cons x visited [] h = (refl, tt)
Apart-cons x visited (c ∷ cs) (apart, h) =
    let (new, rest) = Apart-cons x visited cs h in
    (ground (arith, apart, new), (ground (arith, apart), rest))

module _ (t : FatTable) where
  -- The loop ends when the fuel exceeds the clusters that were not visited yet.
  follow_from-ends :
      (fuel current : ℕ) (visited chain : List ℕ)
      → current < 2 ^ 28
      → NoRepeats visited
      → Below (length t.fat_bytes) visited
      → length t.fat_bytes + 1 < fuel + length visited
      → (r : Result FatError (List ℕ)) × (follow_from fuel t current visited chain ≡ some r)
  unfolding follow_from NoRepeats Below
  follow_from-ends zero current visited chain lt different below enough =
      absurd
        (let bound = NoRepeats-length (length t.fat_bytes) visited different below in omega arith)
  follow_from-ends (suc fuel) current visited chain lt different below enough =
      elim (Bool-cases (ltb current 2)) [
        | inl small ↦ (ok chain, rw small refl)
        | inr large ↦ elim (Bool-cases (contains current visited)) [
          | inl seen ↦ (err (chain_loop current), rw (large, seen) refl)
          | inr new ↦ elim (Option-cases (get_next_cluster t current)) [
            | inl last ↦ (ok (chain ++ current ∷ []), rw (large, new, last) refl)
            | inr (next, linked) ↦
                let (inside, small) = get_next_cluster-lt t current next lt linked in
                rw (large, new, linked)
                  (follow_from-ends fuel next (current ∷ visited) (chain ++ current ∷ []) small
                    (new, different) (inside, below) (omega arith))
          ]
        ]
      ]

  -- Following a chain from a 28-bit start ends on every table, damaged or circular ones included:
  -- the fuel of the model suffices.
  pub follow_chain-ends :
      (start : ℕ)
      → start < 2 ^ 28
      → (r : Result FatError (List ℕ)) × (follow_chain t start ≡ some r)
  unfolding follow_chain NoRepeats Below
  follow_chain-ends start lt = elim (Bool-cases (ltb start 2)) [
    | inl small ↦ (ok [], rw (follow_chain, small) refl)
    | inr large ↦
        rw (follow_chain, large)
          (follow_from-ends (length t.fat_bytes + 2) start [] [] lt tt tt (omega arith))
  ]

  -- A chain in the table: each cluster links to the next, and the last to none in the data area.
  pub data IsChain : ℕ → List ℕ → Type 0 where
    chain_end : {c : ℕ} → c < 2 → IsChain c []
    chain_last : {c : ℕ} → 2 ≤ c → get_next_cluster t c ≡ none → IsChain c (c ∷ [])
    chain_next :
        {c next : ℕ} {cs : List ℕ}
        → 2 ≤ c
        → get_next_cluster t c ≡ some next
        → IsChain next cs
        → IsChain c (c ∷ cs)

  -- What the loop adds to the chain.
  follow_from_sound :
      (fuel current : ℕ) (visited chain out : List ℕ)
      → follow_from fuel t current visited chain ≡ some (ok out)
      → (tail : List ℕ) × (out ≡ chain ++ tail)
        × IsChain current tail
        × NoRepeats tail
        × Apart visited tail
  unfolding follow_from NoRepeats Apart
  follow_from_sound zero current visited chain out h = absurd (ground (arith, h))
  follow_from_sound (suc fuel) current visited chain out h = elim (Bool-cases (ltb current 2)) [
    | inl small ↦
        ([], ground (arith, h, small, append-nil chain), chain_end (ground (arith, small)), tt, tt)
    | inr large ↦ elim (Bool-cases (contains current visited)) [
      | inl seen ↦ absurd (ground (arith, h, large, seen))
      | inr new ↦ elim (Option-cases (get_next_cluster t current)) [
        | inl last ↦ (
          current ∷ [],
          ground (arith, h, large, new, last),
          chain_last (ground (arith, large)) last,
          (refl, tt),
          (new, tt),
        )
        | inr (next, linked) ↦
            let (tail, made, chained, different, apart) =
              follow_from_sound fuel next (current ∷ visited) (chain ++ current ∷ []) out
                (sym (rw (large, new, linked) refl) ∙ h) in
            let (absent, rest) = Apart-cons current visited tail apart in
            (
              current ∷ tail,
              made ∙ append_assoc chain (current ∷ []) tail,
              chain_next (ground (arith, large)) linked chained,
              (absent, different),
              (new, rest),
            )
      ]
    ]
  ]

  -- A chain that is returned is the chain of the table from the start: each cluster links to the
  -- next, the last to none in the data area, and no cluster occurs twice.
  pub follow_chain-IsChain :
      (start : ℕ) (out : List ℕ)
      → follow_chain t start ≡ some (ok out)
      → IsChain start out × NoRepeats out
  unfolding follow_chain NoRepeats
  follow_chain-IsChain start out h = elim (Bool-cases (ltb start 2)) [
    | inl small ↦
        (subst (λ cs. IsChain start cs × NoRepeats cs)
          (let made : [] ≡ out = ground (arith, h, small) in made)
          (chain_end (ground (arith, small)), tt))
    | inr large ↦
        let (tail, made, chained, different, apart) =
          follow_from_sound (length t.fat_bytes + 2) start [] [] out
            (sym (rw (follow_chain, large) refl) ∙ h) in
        subst (λ cs. IsChain start cs × NoRepeats cs) (sym made) (chained, different)
  ]

  -- The chain of a cluster that is free.
  pub follow_chain-zeroed :
      (start : ℕ)
      → 2 ≤ start
      → is_cluster_free t start ≡ true
      → follow_chain t start ≡ some (ok (start ∷ []))
  unfolding follow_chain follow_from contains
  follow_chain-zeroed start two free =
      let large : ltb start 2 ≡ false = ground arith in
      let fuel : length t.fat_bytes + 2 ≡ suc (length t.fat_bytes + 1) = omega arith in
      rw (follow_chain, large, fuel, large, get_next_cluster-is_cluster_free t start free) refl
