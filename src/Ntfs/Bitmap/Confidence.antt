-- ===== src/Ntfs/Bitmap/Confidence.antt =====
-- What a confidence of bitmap.rs promises of the clusters of a file.
use vajra_forensics_platform.Prelude.{
  ℕ, zero, suc, ◌+◌, ◌-◌, ◌/◌, ◌%◌, ◌^◌, length, get_or, ◌<◌, ◌≡◌, ◌⊎◌, refl, sym, ap, ◌∙◌, inl,
  inr, Bool, true, false, List, [], ◌∷◌, ◌++◌, ◌==◌, All, Any, u64, ok, arith,
}
use vajra_forensics_platform.Files.{MetadataConfidence, low, reconstructed, partial, confirmed}
use vajra_forensics_platform.Ntfs.Boot.{NtfsBoot}
use vajra_forensics_platform.Ntfs.Bitmap.{
  is_cluster_free, mark, start_lcn, cluster_count, clusters_from, extents_from, confidence_of,
  evaluate_extents_confidence,
}

-- The clusters of an extent, and of a file: from the cluster of its first sector on, as many as its
-- sectors fill, the last one perhaps in part.
abbrev pub clusters_at : ℕ → ℕ → ℕ → List ℕ
clusters_at start c zero = []
clusters_at start c (suc n) = u64 (start + c) ∷ clusters_at start (c + 1) n

abbrev pub clusters_of : NtfsBoot → List (ℕ × ℕ) → List ℕ
clusters_of boot [] = []
clusters_of boot ((start_lba, block_count) ∷ extents) =
    let spc = boot.sectors_per_cluster in
    clusters_at ((start_lba - boot.partition_start_lba) / spc) 0 (u64 (block_count + spc - 1) / spc)
    ++ clusters_of boot extents

-- The bit of a cluster is in the bitmap, and zero: bit `lcn % 8`, from the lowest, of byte `lcn / 8`.
abbrev pub IsFree : List ℕ → ℕ → Type 0
IsFree bitmap lcn = (lcn / 8 < length bitmap) × (get_or bitmap (lcn / 8) 0 / 2 ^ (lcn % 8) % 2 ≡ 0)

abbrev pub IsTaken : List ℕ → ℕ → Type 0
IsTaken bitmap lcn = IsFree bitmap lcn → ⊥

free_lem : (bitmap : List ℕ) (lcn : ℕ) → is_cluster_free bitmap lcn ≡ true → IsFree bitmap lcn
unfolding is_cluster_free
free_lem bitmap lcn e = (ground (arith, e), ground (arith, e))

taken_lem : (bitmap : List ℕ) (lcn : ℕ) → is_cluster_free bitmap lcn ≡ false → IsTaken bitmap lcn
unfolding is_cluster_free
taken_lem bitmap lcn e = λ (inside, clear). absurd (ground (arith, e, inside, clear))

-- What a confidence says of the clusters of a file.
abbrev pub IsJustified : List ℕ → List ℕ → MetadataConfidence → Type 0
IsJustified bitmap clusters confirmed = All (IsFree bitmap) clusters
IsJustified bitmap clusters partial = Any (IsFree bitmap) clusters × Any (IsTaken bitmap) clusters
IsJustified bitmap clusters low = All (IsTaken bitmap) clusters
IsJustified bitmap clusters reconstructed = ⊥

marks : List ℕ → List ℕ → Bool × Bool → Bool × Bool
marks bitmap [] flags = flags
marks bitmap (c ∷ cs) flags = marks bitmap cs (mark (is_cluster_free bitmap c) flags)

marks-append :
    (bitmap cs ds : List ℕ) (flags : Bool × Bool)
    → marks bitmap (cs ++ ds) flags ≡ marks bitmap ds (marks bitmap cs flags)
unfolding marks
marks-append bitmap [] ds flags = refl
marks-append bitmap (c ∷ cs) ds flags = marks-append bitmap cs ds _

clusters_from-marks :
    (bitmap : List ℕ) (start c n : ℕ) (flags : Bool × Bool)
    → clusters_from bitmap start c n flags ≡ marks bitmap (clusters_at start c n) flags
unfolding clusters_from marks
clusters_from-marks bitmap start c zero flags = refl
clusters_from-marks bitmap start c (suc n) flags = clusters_from-marks bitmap start (c + 1) n _

extents_from-marks :
    (bitmap : List ℕ) (boot : NtfsBoot) (extents : List (ℕ × ℕ)) (flags : Bool × Bool)
    → extents_from bitmap boot extents flags ≡ marks bitmap (clusters_of boot extents) flags
unfolding extents_from marks
extents_from-marks bitmap boot [] flags = refl
extents_from-marks bitmap boot ((start_lba, block_count) ∷ extents) flags =
    let here = clusters_at (start_lcn boot start_lba) 0 (cluster_count boot block_count) in
    extents_from-marks bitmap boot extents _
    ∙ ap (marks bitmap (clusters_of boot extents)) (
        clusters_from-marks bitmap (start_lcn boot start_lba) 0 (cluster_count boot block_count)
          flags)
    ∙ sym (marks-append bitmap here (clusters_of boot extents) flags)

-- What the flags say of the clusters that have been marked, and of those before.
IsTold : List ℕ → List ℕ → Bool × Bool → Bool × Bool → Type 0
IsTold bitmap cs before after =
    ((after.0 ≡ true) → (before.0 ≡ true) × All (IsFree bitmap) cs)
    × ((after.0 ≡ false) → (before.0 ≡ false) ⊎ Any (IsTaken bitmap) cs)
    × ((after.1 ≡ true) → (before.1 ≡ true) ⊎ Any (IsFree bitmap) cs)
    × ((after.1 ≡ false) → (before.1 ≡ false) × All (IsTaken bitmap) cs)

IsTold-nothing :
    (bitmap : List ℕ) (all_free any_free : Bool)
    → IsTold bitmap [] (all_free, any_free) (all_free, any_free)
unfolding IsTold
IsTold-nothing bitmap all_free any_free = (λ e. (e, tt), λ e. inl e, λ e. inl e, λ e. (e, tt))

IsTold-step :
    (bitmap cs : List ℕ) (c : ℕ) (b all_free any_free : Bool) (after : Bool × Bool)
    → is_cluster_free bitmap c ≡ b
    → IsTold bitmap cs (mark b (all_free, any_free)) after
    → IsTold bitmap (c ∷ cs) (all_free, any_free) after
unfolding IsTold
IsTold-step bitmap cs c true all_free any_free after e (a, b, d, f) = (
  λ h. ((a h).0, (free_lem bitmap c e, (a h).1)),
  λ h. elim (b h) [ inl before ↦ inl before | inr later ↦ inr (inr later) ],
  λ h. inr (inl (free_lem bitmap c e)),
  λ h. absurd (ground (arith, (f h).0)),
)
IsTold-step bitmap cs c false all_free any_free after e (a, b, d, f) = (
  λ h. absurd (ground (arith, (a h).0)),
  λ h. inr (inl (taken_lem bitmap c e)),
  λ h. elim (d h) [ inl before ↦ inl before | inr later ↦ inr (inr later) ],
  λ h. ((f h).0, (taken_lem bitmap c e, (f h).1)),
)

marks-IsTold :
    (bitmap cs : List ℕ) (all_free any_free : Bool)
    → IsTold bitmap cs (all_free, any_free) (marks bitmap cs (all_free, any_free))
unfolding marks
marks-IsTold bitmap [] all_free any_free = IsTold-nothing bitmap all_free any_free
marks-IsTold bitmap (c ∷ cs) all_free any_free =
    let flags = mark (is_cluster_free bitmap c) (all_free, any_free) in
    IsTold-step bitmap cs c (is_cluster_free bitmap c) all_free any_free (marks bitmap cs flags)
      refl (marks-IsTold bitmap cs flags.0 flags.1)

confidence_of-IsJustified :
    (bitmap cs : List ℕ) (flags : Bool × Bool)
    → IsTold bitmap cs (true, false) flags
    → IsJustified bitmap cs (confidence_of flags)
unfolding IsTold
confidence_of-IsJustified bitmap cs (true, any_free) told = (told.0 refl).1
confidence_of-IsJustified bitmap cs (false, false) told = (told.3 refl).1
confidence_of-IsJustified bitmap cs (false, true) told = (
  elim (told.2 refl) [ inl b ↦ absurd (ground (arith, b)) | inr free ↦ free ],
  elim (told.1 refl) [ inl b ↦ absurd (ground (arith, b)) | inr taken ↦ taken ],
)

pub evaluate_extents_confidence-IsJustified :
    (bitmap : List ℕ) (extents : List (ℕ × ℕ)) (boot : NtfsBoot)
    → 0 < boot.sectors_per_cluster
    → (c : MetadataConfidence) × (evaluate_extents_confidence bitmap extents boot ≡ ok c)
      × IsJustified bitmap (clusters_of boot extents) c
unfolding evaluate_extents_confidence
evaluate_extents_confidence-IsJustified bitmap [] boot pos = (low, refl, tt)
evaluate_extents_confidence-IsJustified bitmap (e ∷ extents) boot pos =
    let divides : (boot.sectors_per_cluster == 0) ≡ false = ground arith in
    let clusters = clusters_of boot (e ∷ extents) in
    let flags = marks bitmap clusters (true, false) in
    (
      confidence_of flags,
      rw (divides, extents_from-marks bitmap boot (e ∷ extents) (true, false)) refl,
      confidence_of-IsJustified bitmap clusters flags (marks-IsTold bitmap clusters true false),
    )
