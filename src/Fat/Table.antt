-- ===== src/Fat/Table.antt =====
-- crates/vajra-fs-fat/src/fat_table.rs: the entries of the allocation table and the chains of
-- clusters. A table is its bytes and the type of its volume.
pub mod Entries
pub mod Pigeonhole
pub mod Chains
use vajra_forensics_platform.Prelude.{
  ℕ, zero, suc, ◌+◌, ◌*◌, ◌/◌, ◌%◌, ◌^◌, Bool, false, ◌||◌, Option, none, some, List, [], ◌∷◌, ◌++◌,
  ltb, leb, ◌==◌, if◌then◌else◌, length, le16, le32, u32, Result, ok, err,
}
use vajra_forensics_platform.Fat.Bpb.{FilesystemType, fat12, fat16, fat32, FatError, chain_loop}

pub record FatTable : Type 0 where
  pub fat_type : FilesystemType
  pub fat_bytes : List ℕ

-- The 12-bit entry of a cluster, from the two bytes that it shares with a neighbour.
abbrev pub entry12 : ℕ → ℕ → ℕ
entry12 cluster raw = if cluster % 2 == 0 then raw % 2 ^ 12 else raw / 2 ^ 4 % 2 ^ 12

-- Whether the table has `size` bytes from `offset` on.
abbrev pub has_entry : List ℕ → ℕ → ℕ → Bool
has_entry table offset size = leb (offset + size) (length table)

-- Free, bad and end-of-chain entries have no next cluster.
abbrev pub link : ℕ → ℕ → ℕ → Option ℕ
link bad end_mark val = if val == 0 || val == bad || leb end_mark val then none else some val

pub next_in : FilesystemType → List ℕ → ℕ → Option ℕ
next_in fat32 table cluster =
    let offset = cluster * 4 in
    if has_entry table offset 4 then link 268435447 268435448 (le32 table offset % 2 ^ 28) else none
next_in fat16 table cluster =
    let offset = cluster * 2 in
    if has_entry table offset 2 then link 65527 65528 (le16 table offset) else none
next_in fat12 table cluster =
    let offset = u32 (cluster * 3) / 2 in
    if has_entry table offset 2 then link 4087 4088 (entry12 cluster (le16 table offset)) else none
next_in type table cluster = none

pub get_next_cluster : FatTable → ℕ → Option ℕ
unfolding next_in
get_next_cluster t cluster = next_in t.fat_type t.fat_bytes cluster

unfoldable pub free_in : FilesystemType → List ℕ → ℕ → Bool
free_in fat32 table cluster =
    let offset = cluster * 4 in
    if has_entry table offset 4 then le32 table offset % 2 ^ 28 == 0 else false
free_in fat16 table cluster =
    let offset = cluster * 2 in if has_entry table offset 2 then le16 table offset == 0 else false
free_in fat12 table cluster =
    let offset = u32 (cluster * 3) / 2 in
    if has_entry table offset 2 then entry12 cluster (le16 table offset) == 0 else false
free_in type table cluster = false

unfoldable pub is_cluster_free : FatTable → ℕ → Bool
unfolding free_in
is_cluster_free t cluster = free_in t.fat_type t.fat_bytes cluster

-- `visited.contains(&c)`.
pub contains : ℕ → List ℕ → Bool
contains c [] = false
contains c (d ∷ ds) = d == c || contains c ds

-- The loop of `follow_chain`, on fuel: `none` when the fuel does not suffice.
pub follow_from : ℕ → FatTable → ℕ → List ℕ → List ℕ → Option (Result FatError (List ℕ))
unfolding get_next_cluster contains
follow_from zero t current visited chain = none
follow_from (suc fuel) t current visited chain =
    let rest = λ (next : ℕ). follow_from fuel t next (current ∷ visited) (chain ++ current ∷ []) in
    if ltb current 2
    then some (ok chain)
    else if contains current visited
    then some (err (chain_loop current))
    else elim (get_next_cluster t current) [
      | none ↦ some (ok (chain ++ current ∷ []))
      | some next ↦ rest next
    ]

-- The fuel is one for each byte of the table, and two.
unfoldable pub follow_chain : FatTable → ℕ → Option (Result FatError (List ℕ))
unfolding follow_from
follow_chain t start_cluster =
    if ltb start_cluster 2
    then some (ok [])
    else follow_from (length t.fat_bytes + 2) t start_cluster [] []
