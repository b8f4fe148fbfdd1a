-- ===== src/Ntfs/Vss.antt =====
-- crates/vajra-fs-ntfs/src/vss.rs: the names of shadow copies.
use vajra_forensics_platform.Prelude.{
  ℕ, ◌+◌, Bool, true, false, ◌&&◌, ◌||◌, List, [], ◌∷◌, ◌++◌, map, leb, ◌==◌, if◌then◌else◌,
  bytes_eq,
}

pub record VssInfo : Type 0 where
  pub has_vss_snapshots : Bool
  pub catalog_files_count : ℕ
  pub snapshot_store_guids : List (List ℕ)

-- `VssInfo::new()`.
abbrev pub new_vss : VssInfo
new_vss = record { has_vss_snapshots = false; catalog_files_count = 0; snapshot_store_guids = [] }

pub starts_with : List ℕ → List ℕ → Bool
starts_with text [] = true
starts_with [] (n ∷ needle) = false
starts_with (c ∷ text) (n ∷ needle) = if c == n then starts_with text needle else false

pub contains : List ℕ → List ℕ → Bool
unfolding starts_with
contains [] needle = starts_with [] needle
contains (c ∷ text) needle = starts_with (c ∷ text) needle || contains text needle

pub to_ascii_lowercase : List ℕ → List ℕ
to_ascii_lowercase text = map (λ c. if leb 65 c && leb c 90 then c + 32 else c) text

-- "{3808876b-c176-4e48-b7ae-04046e6cc752}", "vss_" and "syscache.hve".
abbrev pub store_guid : List ℕ
store_guid =
    123 ∷ 51 ∷ 56 ∷ 48 ∷ 56 ∷ 56 ∷ 55 ∷ 54 ∷ 98 ∷ 45 ∷ 99 ∷ 49 ∷ 55 ∷ 54 ∷ 45 ∷ 52 ∷ 101 ∷ 52 ∷ 56
    ∷ 45 ∷ 98 ∷ 55 ∷ 97 ∷ 101 ∷ 45 ∷ 48 ∷ 52 ∷ 48 ∷ 52 ∷ 54 ∷ 101 ∷ 54 ∷ 99 ∷ 99 ∷ 55 ∷ 53 ∷ 50
    ∷ 125 ∷ []

abbrev pub vss_prefix : List ℕ
vss_prefix = 118 ∷ 115 ∷ 115 ∷ 95 ∷ []

abbrev pub syscache_name : List ℕ
syscache_name = 115 ∷ 121 ∷ 115 ∷ 99 ∷ 97 ∷ 99 ∷ 104 ∷ 101 ∷ 46 ∷ 104 ∷ 118 ∷ 101 ∷ []

abbrev pub any_is : List (List ℕ) → List ℕ → Bool
any_is [] text = false
any_is (g ∷ guids) text = bytes_eq g text || any_is guids text

pub check_filename : VssInfo → List ℕ → VssInfo
unfolding contains to_ascii_lowercase
check_filename info filename =
    let lower = to_ascii_lowercase filename in
    if contains filename store_guid || contains lower vss_prefix || contains lower syscache_name
    then if any_is info.snapshot_store_guids filename
      then record {
        has_vss_snapshots = true;
        catalog_files_count = info.catalog_files_count;
        snapshot_store_guids = info.snapshot_store_guids;
      }
      else record {
        has_vss_snapshots = true;
        catalog_files_count = info.catalog_files_count + 1;
        snapshot_store_guids = info.snapshot_store_guids ++ filename ∷ [];
      }
    else info
