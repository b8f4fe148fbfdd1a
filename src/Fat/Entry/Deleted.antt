-- ===== src/Fat/Entry/Deleted.antt =====
-- Where build_recoverable_entry of parser.rs says that the data of a file lie.
use vajra_forensics_platform.Prelude.{
  ℕ, ◌+◌, ◌*◌, ◌/◌, ◌%◌, ◌^◌, ◌↔◌, inl, inr, Bool-cases, length, le16, le32, u32, ◌==◌, ◌≤◌, ◌≡◌,
  refl, sym, ap, ◌∙◌, Bool, true, false, some, List, [], ◌∷◌, ltb, if◌then◌else◌, All, ok, arith,
}
use vajra_forensics_platform.Files.{
  FilesystemType, fat12, fat16, fat32, MetadataConfidence, partial, confirmed, extents_of,
  RecoverableFileEntry,
}
use vajra_forensics_platform.Fat.Bpb.{FatBpb}
use vajra_forensics_platform.Fat.Table.{FatTable, free_in, is_cluster_free, follow_chain}
use vajra_forensics_platform.Fat.Table.Chains.{
  IsChain, chain_end, chain_last, chain_next, follow_chain-IsChain, follow_chain-zeroed,
}
use vajra_forensics_platform.Fat.Extents.{extents_to_location}
use vajra_forensics_platform.Fat.Extents.Sectors.{
  blocks_of, cluster_blocks, IsDataCluster, clusters_to_extents-blocks,
}
use vajra_forensics_platform.Fat.Entry.{
  FatDirEntry, all_free, free_confidence, placed, deleted_place, data_place, entry_at,
  build_recoverable_entry,
}

extents_of-extents_to_location : (es : List (ℕ × ℕ)) → extents_of (extents_to_location es) ≡ es
extents_of-extents_to_location [] = refl
extents_of-extents_to_location (e ∷ []) = refl
extents_of-extents_to_location (e ∷ (f ∷ es)) = refl

chain_start :
    (t : FatTable) (start : ℕ) (chain : List ℕ)
    → 2 ≤ start
    → IsChain t start chain
    → (c : ℕ) × (cs : List ℕ) × (chain ≡ c ∷ cs)
chain_start t start chain two (chain_end lt) = absurd (omega arith)
chain_start t start chain two (chain_last {c} le last) = (c, [], refl)
chain_start t start chain two (chain_next {c} {next} {cs} le linked rest) = (c, cs, refl)

-- A deleted file has the confidence of its clusters, and another file is confirmed.
abbrev pub chain_confidence : FatTable → Bool → List ℕ → MetadataConfidence
chain_confidence t is_deleted chain =
    if is_deleted then free_confidence (all_free t chain) else confirmed

-- The entry of a cluster lies in the table and is zero: 28 bits of four bytes, two bytes, or the 12
-- bits that are the lower ones of two bytes at an even cluster and the upper ones at an odd cluster.
abbrev pub IsZeroIn : FilesystemType → List ℕ → ℕ → Type 0
IsZeroIn fat32 table c = (c * 4 + 4 ≤ length table) × (le32 table (c * 4) % 2 ^ 28 ≡ 0)
IsZeroIn fat16 table c = (c * 2 + 2 ≤ length table) × (le16 table (c * 2) ≡ 0)
IsZeroIn fat12 table c =
    (u32 (c * 3) / 2 + 2 ≤ length table)
    × ((c % 2 ≡ 0) → le16 table (u32 (c * 3) / 2) % 2 ^ 12 ≡ 0)
    × ((c % 2 ≡ 1) → le16 table (u32 (c * 3) / 2) / 2 ^ 4 % 2 ^ 12 ≡ 0)
IsZeroIn type table c = ⊥

abbrev pub IsZero : FatTable → ℕ → Type 0
IsZero t c = IsZeroIn t.fat_type t.fat_bytes c

free_in_iff :
    (type : FilesystemType) (table : List ℕ) (c : ℕ)
    → (free_in type table c ≡ true) ↔ IsZeroIn type table c
unfolding free_in
free_in_iff fat32 table c = ground arith
free_in_iff fat16 table c = ground arith
free_in_iff fat12 table c = elim (Bool-cases (c % 2 == 0)) [
  | inl even ↦ (
    λ h. (
      ground (arith, h),
      λ parity. ground (arith, h, even),
      λ parity. absurd (ground (arith, even, parity)),
    ),
    λ (inside, lower, upper).
        let zero_there = lower (ground (arith, even)) in ground (arith, inside, even, zero_there),
  )
  | inr odd ↦ (
    λ h. (
      ground (arith, h),
      λ parity. absurd (ground (arith, odd, parity)),
      λ parity. ground (arith, h, odd),
    ),
    λ (inside, lower, upper).
        let one : c % 2 ≡ 1 = ground (arith, odd) in
        let zero_there = upper one in ground (arith, inside, odd, zero_there),
  )
]
free_in_iff type table c = (λ h. absurd (ground (arith, h)), λ h. absurd h)

is_cluster_free-free_in :
    (t : FatTable) (c : ℕ) → is_cluster_free t c ≡ true → free_in t.fat_type t.fat_bytes c ≡ true
unfolding is_cluster_free
is_cluster_free-free_in t c free = free

all_free_iff : (t : FatTable) (cs : List ℕ) → (all_free t cs ≡ true) ↔ All (IsZero t) cs
unfolding all_free is_cluster_free
all_free_iff t [] = (λ h. tt, λ h. refl)
all_free_iff t (c ∷ cs) =
    let here = free_in_iff t.fat_type t.fat_bytes c in
    let rest = all_free_iff t cs in
    (
      λ h. (here.0 (ground (arith, h)), rest.0 (ground (arith, h))),
      λ p. let a = here.1 p.0 in let b = rest.1 p.1 in ground (arith, a, b),
    )

-- What the confidence of an entry says: a deleted file is confirmed when all its clusters are free
-- in the table, and only then, and else partial; another file is confirmed.
abbrev pub IsHonest : FatTable → Bool → List ℕ → MetadataConfidence → Type 0
IsHonest t is_deleted chain c =
    ((is_deleted ≡ false) → c ≡ confirmed)
    × ((is_deleted ≡ true) → All (IsZero t) chain → c ≡ confirmed)
    × ((is_deleted ≡ true) → (All (IsZero t) chain → ⊥) → c ≡ partial)

chain_confidence-IsHonest :
    (t : FatTable) (is_deleted : Bool) (chain : List ℕ)
    → IsHonest t is_deleted chain (chain_confidence t is_deleted chain)
chain_confidence-IsHonest t false chain =
    (λ e. refl, λ e. absurd (ground (arith, e)), λ e. absurd (ground (arith, e)))
chain_confidence-IsHonest t true chain =
    let free = all_free_iff t chain in
    elim (Bool-cases (all_free t chain)) [
      | inl all ↦ (
        λ e. absurd (ground (arith, e)),
        λ e zeros. rw all refl,
        λ e some_taken. absurd (some_taken (free.0 all)),
      )
      | inr not_all ↦ (
        λ e. absurd (ground (arith, e)),
        λ e zeros. let all = free.1 zeros in absurd (ground (arith, all, not_all)),
        λ e some_taken. rw not_all refl,
      )
    ]

data_place-chain :
    (bpb : FatBpb) (t : FatTable) (is_deleted : Bool) (start size c : ℕ) (cs : List ℕ)
    → 2 ≤ start
    → follow_chain t start ≡ some (ok (c ∷ cs))
    → data_place bpb t is_deleted start size
      ≡ placed bpb (c ∷ cs) (chain_confidence t is_deleted (c ∷ cs))
unfolding data_place deleted_place
data_place-chain bpb t true start size c cs two followed =
    let large : ltb start 2 ≡ false = ground arith in rw (large, followed) refl
data_place-chain bpb t false start size c cs two followed =
    let large : ltb start 2 ≡ false = ground arith in rw (large, followed) refl

data_place-blocks :
    (bpb : FatBpb) (t : FatTable) (is_deleted : Bool) (start size : ℕ) (chain : List ℕ)
    → 2 ≤ start
    → follow_chain t start ≡ some (ok chain)
    → All (IsDataCluster bpb) chain
    → (es : List (ℕ × ℕ)) × (data_place bpb t is_deleted start size
        ≡ ok (extents_to_location es, chain_confidence t is_deleted chain))
      × (blocks_of es ≡ cluster_blocks bpb chain)
data_place-blocks bpb t is_deleted start size chain two followed good =
    let (c, cs, e) =
      chain_start t start chain two (follow_chain-IsChain t start chain followed).0 in
    let (es, made, blocks) = clusters_to_extents-blocks bpb chain good in
    let here =
      data_place-chain bpb t is_deleted start size c cs two
        (followed ∙ ap (λ (l : List ℕ). some (ok l)) e) in
    (
      es,
      here
          ∙ ap (λ (l : List ℕ). placed bpb l (chain_confidence t is_deleted l)) (sym e)
          ∙ rw (made) refl,
      blocks,
    )

module _ {DateTime : Type 0} where
  -- The entry of a file whose chain is followed from its first cluster lies in the blocks of the
  -- clusters of that chain, in order, and has the size of the directory. A deleted file is
  -- confirmed when the table entries of all of those clusters are zero, and partial when they are
  -- not; another file is confirmed. The clusters fit their widths.
  pub build_recoverable_entry-chain :
      (bpb : FatBpb) (t : FatTable) (entry : FatDirEntry DateTime) (path chain : List ℕ)
      → 2 ≤ entry.start_cluster
      → follow_chain t entry.start_cluster ≡ some (ok chain)
      → All (IsDataCluster bpb) chain
      → (e : RecoverableFileEntry DateTime) × (build_recoverable_entry bpb t entry path ≡ ok e)
        × (e.size_bytes ≡ some entry.file_size)
        × (blocks_of (extents_of e.data_location) ≡ cluster_blocks bpb chain)
        × IsHonest t entry.is_deleted chain e.metadata_confidence
  unfolding build_recoverable_entry
  build_recoverable_entry-chain bpb t entry path chain two followed good =
      let confidence = chain_confidence t entry.is_deleted chain in
      let (es, placed_at, blocks) =
        data_place-blocks bpb t entry.is_deleted entry.start_cluster entry.file_size chain two
          followed good in
      (
        entry_at bpb entry path (extents_to_location es, confidence),
        rw (build_recoverable_entry, placed_at) refl,
        refl,
        ap (λ l. blocks_of l) (extents_of-extents_to_location es) ∙ blocks,
        chain_confidence-IsHonest t entry.is_deleted chain,
      )

  -- A deleted file whose first cluster is free in the table is confirmed, with its whole size, in
  -- the blocks of that one cluster: the run of clusters that would hold the rest is never taken.
  pub build_recoverable_entry-zeroed :
      (bpb : FatBpb) (t : FatTable) (entry : FatDirEntry DateTime) (path : List ℕ)
      → 2 ≤ entry.start_cluster
      → IsDataCluster bpb entry.start_cluster
      → entry.is_deleted ≡ true
      → is_cluster_free t entry.start_cluster ≡ true
      → (e : RecoverableFileEntry DateTime) × (build_recoverable_entry bpb t entry path ≡ ok e)
        × (e.size_bytes ≡ some entry.file_size)
        × (blocks_of (extents_of e.data_location) ≡ cluster_blocks bpb (entry.start_cluster ∷ []))
        × (e.metadata_confidence ≡ confirmed)
  build_recoverable_entry-zeroed bpb t entry path two good deleted free =
      let start = entry.start_cluster in
      let (e, built, size, blocks, confidence) =
        build_recoverable_entry-chain bpb t entry path (start ∷ []) two
          (follow_chain-zeroed t start two free) (good, tt) in
      let zero_there =
        (free_in_iff t.fat_type t.fat_bytes start).0 (is_cluster_free-free_in t start free) in
      (e, built, size, blocks, confidence.1 deleted (zero_there, tt))
