-- ===== src/Fat/Bpb/Geometry.antt =====
-- What the geometry that bpb.rs parses promises.
use vajra_forensics_platform.Prelude.{
  ℕ, ◌+◌, ◌-◌, ◌*◌, ◌<◌, ◌≤◌, ◌^◌, ◌≡◌, Bool-cases, inl, inr, true, List, ltb, get_or, le16, u64,
  ok, subst, arith,
}
use vajra_forensics_platform.Fat.Bpb.{
  FatBpb, is_sector_size, is_cluster_size, geometry, parse, cluster_to_lba,
}

-- A geometry that can be divided by and multiplied without overflow.
record IsGeometry (bpb : FatBpb) : Type 0 where
  pub sector : (512 ≤ bpb.bytes_per_sector) × (bpb.bytes_per_sector ≤ 4096)
  pub cluster : (1 ≤ bpb.sectors_per_cluster) × (bpb.sectors_per_cluster ≤ 128)

is_sector_size_lem : (n : ℕ) → is_sector_size n ≡ true → (512 ≤ n) × (n ≤ 4096)
unfolding is_sector_size
is_sector_size_lem n h = (ground (arith, h), ground (arith, h))

is_cluster_size_lem : (n : ℕ) → is_cluster_size n ≡ true → (1 ≤ n) × (n ≤ 128)
unfolding is_cluster_size
is_cluster_size_lem n h = (ground (arith, h), ground (arith, h))

place : (c d size : ℕ) → 2 ≤ c → c < d → (c - 2) * size + size ≤ (d - 2) * size
place c d size two lt = grind arith

-- A cluster lies behind all the sectors of the clusters before it, while the block number of the
-- later one fits in 64 bits.
cluster_to_lba-disjoint :
    (bpb : FatBpb) (c d lba₁ lba₂ : ℕ)
    → bpb.first_data_lba + (d - 2) * bpb.sectors_per_cluster < 2 ^ 64
    → c < d
    → cluster_to_lba bpb c ≡ ok lba₁
    → cluster_to_lba bpb d ≡ ok lba₂
    → lba₁ + bpb.sectors_per_cluster ≤ lba₂
unfolding cluster_to_lba
cluster_to_lba-disjoint bpb c d lba₁ lba₂ fits lt h₁ h₂ = elim (Bool-cases (ltb c 2)) [
  | inl t ↦ absurd (ground (arith, h₁, t))
  | inr t ↦
      let above = place c d bpb.sectors_per_cluster (ground (arith, t)) lt in
      let first : u64 (bpb.first_data_lba + (c - 2) * bpb.sectors_per_cluster) ≡ lba₁ =
        ground (arith, h₁, t) in
      let second : u64 (bpb.first_data_lba + (d - 2) * bpb.sectors_per_cluster) ≡ lba₂ =
        ground (arith, h₂, t) in
      ground (arith, above, first, second)
]

parse-ok :
    (start : ℕ) (sector : List ℕ) (bpb : FatBpb)
    → parse start sector ≡ ok bpb
    → (is_sector_size (le16 sector 11) ≡ true)
      × (is_cluster_size (get_or sector 13 0) ≡ true)
      × (geometry start sector ≡ bpb)
unfolding parse
parse-ok start sector bpb h = (ground (arith, h), ground (arith, h), ground (arith, h))

-- A boot sector that is accepted describes sectors of 512 to 4096 bytes, and clusters of 1 to 128
-- of them.
parse-IsGeometry :
    (start : ℕ) (sector : List ℕ) (bpb : FatBpb) → parse start sector ≡ ok bpb → IsGeometry bpb
unfolding geometry
parse-IsGeometry start sector bpb h =
    let (s, c, made) = parse-ok start sector bpb h in
    subst IsGeometry made (record {
      sector = is_sector_size_lem (le16 sector 11) s;
      cluster = is_cluster_size_lem (get_or sector 13 0) c;
    })
