-- ===== src/Fat/Extents/Sectors.antt =====
-- The blocks that clusters_to_extents of parser.rs lists.
use mathlib.Core.List.{append_assoc, append-nil}
use vajra_forensics_platform.Prelude.{
  ℕ, zero, suc, ◌+◌, ◌-◌, ◌*◌, ◌^◌, ◌≤◌, ◌<◌, ◌≡◌, refl, sym, ap, ap₂, ◌∙◌, inl, inr, true, false,
  Bool-cases, List, [], ◌∷◌, ◌++◌, ◌==◌, All, u32, u64, ok, arith,
}
use vajra_forensics_platform.Fat.Bpb.{FatBpb, cluster_to_lba}
use vajra_forensics_platform.Fat.Extents.{extents_loop, clusters_to_extents}

-- The blocks of a run, and of a list of runs, in order.
abbrev pub blocks_at : ℕ → ℕ → List ℕ
blocks_at start zero = []
blocks_at start (suc n) = start ∷ blocks_at (start + 1) n

abbrev pub blocks_of : List (ℕ × ℕ) → List ℕ
blocks_of [] = []
blocks_of ((start, count) ∷ extents) = blocks_at start count ++ blocks_of extents

-- The blocks of each cluster in turn.
abbrev pub cluster_blocks : FatBpb → List ℕ → List ℕ
cluster_blocks bpb [] = []
cluster_blocks bpb (c ∷ cs) =
    blocks_at (bpb.first_data_lba + (c - 2) * bpb.sectors_per_cluster) bpb.sectors_per_cluster
    ++ cluster_blocks bpb cs

-- A cluster whose number and blocks fit their widths.
abbrev pub IsDataCluster : FatBpb → ℕ → Type 0
IsDataCluster bpb c =
    (2 ≤ c) × (c < 2 ^ 32 - 1) × (bpb.first_data_lba + (c - 1) * bpb.sectors_per_cluster < 2 ^ 64)

blocks_at-append :
    (start n m : ℕ) → blocks_at start (n + m) ≡ blocks_at start n ++ blocks_at (start + n) m
blocks_at-append start zero m = ap₂ blocks_at (omega arith) (omega arith)
blocks_at-append start (suc n) m =
    let more : suc n + m ≡ suc (n + m) = omega arith in
    let further : start + suc n ≡ start + 1 + n = omega arith in
    rw (more, further) (ap (λ l. start ∷ l) (blocks_at-append (start + 1) n m))

blocks_of-append : (xs ys : List (ℕ × ℕ)) → blocks_of (xs ++ ys) ≡ blocks_of xs ++ blocks_of ys
blocks_of-append [] ys = refl
blocks_of-append ((start, count) ∷ xs) ys =
    ap (λ l. blocks_at start count ++ l) (blocks_of-append xs ys)
    ∙ sym (append_assoc (blocks_at start count) (blocks_of xs) (blocks_of ys))

times_suc : (a b : ℕ) → 2 ≤ a → (a - 1) * b ≡ (a - 2) * b + b
times_suc a b le = let e : a - 1 ≡ suc (a - 2) = omega arith in rw (e) (omega arith)

cluster_to_lba-ok :
    (bpb : FatBpb) (c : ℕ)
    → IsDataCluster bpb c
    → cluster_to_lba bpb c ≡ ok (bpb.first_data_lba + (c - 2) * bpb.sectors_per_cluster)
unfolding cluster_to_lba
cluster_to_lba-ok bpb c (two, narrow, fits) =
    let one_more = times_suc c bpb.sectors_per_cluster two in ground (arith, one_more, two, fits)

regroup : (a b c d : List ℕ) → (a ++ (b ++ c)) ++ d ≡ (a ++ b) ++ (c ++ d)
regroup a b c d = rw (append_assoc a (b ++ c) d, append_assoc b c d, append_assoc a b (c ++ d)) refl

-- The open run ends where the cluster before does.
Lists : FatBpb → ℕ → ℕ → ℕ → List ℕ → List (ℕ × ℕ) → Type 0
Lists bpb start count prev cs extents =
    (es : List (ℕ × ℕ)) × (extents_loop bpb start count prev cs extents ≡ ok es)
    × (blocks_of es ≡ (blocks_of extents ++ blocks_at start count) ++ cluster_blocks bpb cs)

closed_run :
    (start count : ℕ) (extents : List (ℕ × ℕ))
    → blocks_of (extents ++ (start, count) ∷ []) ≡ blocks_of extents ++ blocks_at start count
closed_run start count extents =
    blocks_of-append extents ((start, count) ∷ [])
    ∙ ap (λ l. blocks_of extents ++ l) (append-nil (blocks_at start count))

longer_run :
    (bpb : FatBpb) (start count prev next : ℕ) (cs : List ℕ) (extents : List (ℕ × ℕ))
    → (next == u32 (prev + 1)) ≡ true
    → IsDataCluster bpb prev
    → IsDataCluster bpb next
    → start + count ≡ bpb.first_data_lba + (prev - 1) * bpb.sectors_per_cluster
    → Lists bpb start (count + bpb.sectors_per_cluster) next cs extents
    → Lists bpb start count prev (next ∷ cs) extents
unfolding Lists extents_loop
longer_run bpb start count prev next cs extents follows here there ends (es, e, blocks) =
    let one_more : next ≡ prev + 1 = ground (arith, follows, here.1) in
    let begins : start + count ≡ bpb.first_data_lba + (next - 2) * bpb.sectors_per_cluster =
      let same : next - 2 ≡ prev - 1 = omega arith in rw (same) ends in
    let fits : u64 (count + bpb.sectors_per_cluster) ≡ count + bpb.sectors_per_cluster =
      omega (arith, times_suc next bpb.sectors_per_cluster there.0, there.2) in
    let spc = bpb.sectors_per_cluster in
    (
      es,
      rw (follows, fits) e,
      blocks
          ∙ ap (λ l. (blocks_of extents ++ l) ++ cluster_blocks bpb cs)
              (blocks_at-append start count spc)
          ∙ regroup (blocks_of extents) (blocks_at start count) (blocks_at (start + count) spc)
              (cluster_blocks bpb cs)
          ∙ ap
              (λ (k : ℕ).
                (blocks_of extents ++ blocks_at start count)
                ++ (blocks_at k spc ++ cluster_blocks bpb cs))
              begins,
    )

next_run :
    (bpb : FatBpb) (start count prev next : ℕ) (cs : List ℕ) (extents : List (ℕ × ℕ))
    → (next == u32 (prev + 1)) ≡ false
    → IsDataCluster bpb next
    → Lists bpb
        (bpb.first_data_lba + (next - 2) * bpb.sectors_per_cluster)
        bpb.sectors_per_cluster
        next
        cs
        (extents ++ (start, count) ∷ [])
    → Lists bpb start count prev (next ∷ cs) extents
unfolding Lists extents_loop
next_run bpb start count prev next cs extents apart there (es, e, blocks) =
    let lba = bpb.first_data_lba + (next - 2) * bpb.sectors_per_cluster in
    (
      es,
      rw (apart, cluster_to_lba-ok bpb next there) e,
      blocks
          ∙ ap (λ l. (l ++ blocks_at lba bpb.sectors_per_cluster) ++ cluster_blocks bpb cs)
              (closed_run start count extents)
          ∙ append_assoc (blocks_of extents ++ blocks_at start count)
              (blocks_at lba bpb.sectors_per_cluster) (cluster_blocks bpb cs),
    )

extents_loop_lem :
    (bpb : FatBpb) (start count prev : ℕ) (cs : List ℕ) (extents : List (ℕ × ℕ))
    → IsDataCluster bpb prev
    → All (IsDataCluster bpb) cs
    → start + count ≡ bpb.first_data_lba + (prev - 1) * bpb.sectors_per_cluster
    → Lists bpb start count prev cs extents
unfolding Lists extents_loop
extents_loop_lem bpb start count prev [] extents here there ends = (
  extents ++ (start, count) ∷ [],
  refl,
  closed_run start count extents ∙ sym (append-nil (blocks_of extents ++ blocks_at start count)),
)
extents_loop_lem bpb start count prev (next ∷ cs) extents here (there, rest) ends =
    let one_more = times_suc next bpb.sectors_per_cluster there.0 in
    elim (Bool-cases (next == u32 (prev + 1))) [
      | inl follows ↦
          let same : next - 2 ≡ prev - 1 = ground (arith, follows, here.1) in
          let scaled = ap (λ n. n * bpb.sectors_per_cluster) same in
          longer_run bpb start count prev next cs extents follows here there ends (
            extents_loop_lem bpb start (count + bpb.sectors_per_cluster) next cs extents there rest
              (omega (arith, one_more, scaled)))
      | inr apart ↦ next_run bpb start count prev next cs extents apart there (
          extents_loop_lem bpb (bpb.first_data_lba + (next - 2) * bpb.sectors_per_cluster)
            bpb.sectors_per_cluster next cs (extents ++ (start, count) ∷ []) there rest
            (omega (arith, one_more)))
    ]

-- The runs of blocks that a list of clusters is joined to hold the blocks of those clusters, each
-- cluster in turn, none lost, repeated or moved, when the numbers and blocks of the clusters fit
-- their widths.
pub clusters_to_extents-blocks :
    (bpb : FatBpb) (cs : List ℕ)
    → All (IsDataCluster bpb) cs
    → (es : List (ℕ × ℕ)) × (clusters_to_extents bpb cs ≡ ok es)
      × (blocks_of es ≡ cluster_blocks bpb cs)
unfolding clusters_to_extents Lists
clusters_to_extents-blocks bpb [] good = ([], refl, refl)
clusters_to_extents-blocks bpb (c ∷ cs) (here, rest) =
    let spc = bpb.sectors_per_cluster in
    let (es, e, blocks) =
      extents_loop_lem bpb (bpb.first_data_lba + (c - 2) * spc) spc c cs [] here rest
        (omega (arith, times_suc c spc here.0)) in
    (es, rw (cluster_to_lba-ok bpb c here) e, blocks)
