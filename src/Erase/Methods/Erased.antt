-- ===== src/Erase/Methods/Erased.antt =====
-- What the overwriting methods of mod.rs leave on a device.
use vajra_forensics_platform.Prelude.{
  ℕ, zero, suc, ◌+◌, ◌*◌, ◌<◌, ◌≡◌, ap, ◌∙◌, List, [], true, ◌==◌, ==_refl, length, replicate,
  Result, ok, err, panic, ◌>>=◌, arith,
}
use vajra_forensics_platform.Erase.Decision.{
  SanitizeMethod, host_overwrite_single_pass, host_overwrite_multi_pass,
}
use vajra_forensics_platform.Erase.Overwrite.{
  EraseError, OverwritePattern, zeros, Target, Progress, execute_overwrite_pass_destructive,
}
use vajra_forensics_platform.Erase.Overwrite.Covers.{
  IsStorage, IsRefused, IsPanicking, Output-zeros, IsCovered,
  execute_overwrite_pass_destructive-IsCovered,
}
use vajra_forensics_platform.Erase.Methods.{
  pattern_of, passes_from, execute_sanitization_destructive,
}

-- An overwrite by the host, in one pass or more.
abbrev pub IsOverwrite : SanitizeMethod → Type 0
IsOverwrite host_overwrite_single_pass = Unit
IsOverwrite (host_overwrite_multi_pass passes) = 0 < passes
IsOverwrite method = ⊥

module _ {Device Rng : Type 0} (t : Target Device) (fill_bytes : Rng → ℕ → List ℕ × Rng)
    (from_entropy : ℕ → Rng) (contents : Device → List ℕ) (storage : IsStorage t contents)
    (fills : (r : Rng) (m : ℕ) → length (fill_bytes r m).0 ≡ m) where
  -- Success leaves zeros, and every failure is one of the device.
  abbrev pub IsErased : Result EraseError (Device × List Progress) → Type 0
  IsErased (ok done) = contents done.0 ≡ replicate (t.total_blocks * t.block_size) 0
  IsErased (err e) = IsRefused t e
  IsErased panic = IsPanicking t

  pass_on :
      OverwritePattern → ℕ → ℕ → Device → List Progress → Result EraseError (Device × List Progress)
  pass_on pattern p total device told =
      execute_overwrite_pass_destructive t fill_bytes pattern p total (from_entropy p) device told

  IsErased-by_zeros :
      (rng : Rng) (r : Result EraseError (Device × List Progress))
      → IsCovered t fill_bytes contents storage fills zeros rng r
      → IsErased r
  IsErased-by_zeros rng (ok done) (output, full) =
      Output-zeros t fill_bytes rng (contents done.0) output ∙ ap (λ (k : ℕ). replicate k 0) full
  IsErased-by_zeros rng (err e) refused = refused
  IsErased-by_zeros rng panic panicking = panicking

  -- A pass that fails ends the run, and one that is covered leaves a device as large as before.
  next_pass :
      (n p total : ℕ) (pattern : OverwritePattern)
      → (r : Result EraseError (Device × List Progress))
      → IsCovered t fill_bytes contents storage fills pattern (from_entropy p) r
      → ((done : Device × List Progress)
          → length (contents done.0) ≡ t.total_blocks * t.block_size
          → IsErased (passes_from t fill_bytes from_entropy n (p + 1) total done.0 done.1))
      → IsErased (r >>= λ done. passes_from t fill_bytes from_entropy n (p + 1) total done.0 done.1)
  next_pass n p total pattern (ok done) (output, full) rest = rest done full
  next_pass n p total pattern (err e) refused rest = refused
  next_pass n p total pattern panic panicking rest = panicking

  last_pass :
      (p : ℕ) (r : Result EraseError (Device × List Progress))
      → IsErased r
      → IsErased (r >>= λ done. passes_from t fill_bytes from_entropy 0 (p + 1) p done.0 done.1)
  unfolding passes_from
  last_pass p (ok done) erased = erased
  last_pass p (err e) refused = refused
  last_pass p panic panicking = panicking

  passes_from-IsErased :
      (n p total : ℕ) (device : Device) (told : List Progress)
      → length (contents device) ≡ t.total_blocks * t.block_size
      → p + n ≡ total
      → IsErased (passes_from t fill_bytes from_entropy (suc n) p total device told)
  unfolding passes_from
  passes_from-IsErased zero p total device told full e =
      let last : p ≡ total = omega arith in
      let at_last : (total == total) ≡ true = ==_refl total in
      let covered =
        execute_overwrite_pass_destructive-IsCovered t fill_bytes contents storage fills zeros total
          total (from_entropy total) device told full in
      rw (last, at_last) (last_pass total _ (IsErased-by_zeros (from_entropy total) _ covered))
  passes_from-IsErased (suc n) p total device told full e =
      let pattern = pattern_of p total in
      next_pass (suc n) p total pattern _
        (execute_overwrite_pass_destructive-IsCovered t fill_bytes contents storage fills pattern p
          total (from_entropy p) device told full)
        (λ done done_full.
          passes_from-IsErased n (p + 1) total done.0 done.1 done_full (omega arith))

  -- An overwrite by the host, in one pass or in any number of passes but none, leaves nothing but
  -- zeros on the device, or fails with the answer of a write that the device refused; a storage
  -- device keeps what an accepted write gives it, the generator fills the length that is asked
  -- for, and the contents have the size of the device.
  pub execute_sanitization_destructive-IsErased :
      (method : SanitizeMethod) (device : Device)
      → IsOverwrite method
      → length (contents device) ≡ t.total_blocks * t.block_size
      → IsErased (execute_sanitization_destructive t fill_bytes from_entropy method device)
  unfolding execute_sanitization_destructive
  execute_sanitization_destructive-IsErased host_overwrite_single_pass device overwrites full =
      IsErased-by_zeros (from_entropy 1) _ (
        execute_overwrite_pass_destructive-IsCovered t fill_bytes contents storage fills zeros 1 1
          (from_entropy 1) device [] full)
  execute_sanitization_destructive-IsErased (host_overwrite_multi_pass zero) device pos full =
      absurd (omega arith)
  execute_sanitization_destructive-IsErased (host_overwrite_multi_pass (suc n)) device pos full =
      passes_from-IsErased n 1 (suc n) device [] full (omega arith)
  execute_sanitization_destructive-IsErased method device overwrites full = absurd overwrites
