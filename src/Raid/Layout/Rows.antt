-- ===== src/Raid/Layout/Rows.antt =====
-- The disks of one stripe row: P, Q and the data columns.
use native.Mathlib.Nat.{mod-eq_of_lt, mod-eq-sub-mod}
use native.Mathlib.Decide.{dec_lt}
use vajra_forensics_platform.Prelude.{
  ℕ, ◌+◌, ◌-◌, ◌%◌, ◌≤◌, ◌<◌, ◌≡◌, ◌∙◌, ◌≢◌, ◌⊎◌, inl, inr, arith,
}
use vajra_forensics_platform.Raid.Layout.{
  RaidLevel, raid0, raid5, raid6, ParityLayout, left_symmetric, left_asymmetric, step_over,
  left_p_raid6, p_index, raid5_member, raid6_member, data_disks, min_members,
}

-- A sum of two indices wraps at most once.
pub mod_once : (a n : ℕ) → a < n + n → ((a < n) × (a % n ≡ a)) ⊎ ((n ≤ a) × (a % n ≡ a - n))
mod_once a n h = elim (dec_lt a n) [
  | yes p ↦ inl (p, mod-eq_of_lt p)
  | no p ↦ inr (omega arith, mod-eq-sub-mod (omega arith) ∙ mod-eq_of_lt (omega arith))
]

-- One round of the loop is enough.
pub left_p_raid6_lem :
    (n raw : ℕ)
    → raw < n
    → 2 ≤ n
    → ((raw + 2 ≤ n) × (left_p_raid6 n raw ≡ n - 2 - raw))
      ⊎ ((raw + 1 ≡ n) × (left_p_raid6 n raw ≡ n - 1))
unfolding left_p_raid6
left_p_raid6_lem n raw h k = ground (arith, mod_once (n - 2 - raw) n, mod_once (n - 1) n)

pub p_index-lt :
    (level : RaidLevel) (layout : ParityLayout) (n row : ℕ) → 2 ≤ n → p_index level layout n row < n
unfolding p_index
p_index-lt raid0 layout n row h = omega arith
p_index-lt raid5 left_symmetric n row h = omega arith
p_index-lt raid5 _ n row h = omega arith
p_index-lt raid6 left_symmetric n row h =
    ground (arith, left_p_raid6_lem n (row % n) (omega arith) h)
p_index-lt raid6 left_asymmetric n row h =
    ground (arith, left_p_raid6_lem n (row % n) (omega arith) h)
p_index-lt raid6 _ n row h = omega arith

pub raid5_member_lem :
    (layout : ParityLayout) (n p col : ℕ)
    → p < n
    → col < n - 1
    → (raid5_member layout n p col < n) × (raid5_member layout n p col ≢ p)
unfolding raid5_member
raid5_member_lem left_symmetric n p col h k = ground (arith, mod_once (p + 1 + col) n)
raid5_member_lem _ n p col h k = ground (arith, mod_once (p + 1 + col) n)

pub raid5_member_injective :
    (layout : ParityLayout) (n p c d : ℕ)
    → p < n
    → c < n - 1
    → d < n - 1
    → raid5_member layout n p c ≡ raid5_member layout n p d
    → c ≡ d
unfolding raid5_member
raid5_member_injective left_symmetric n p c d h k l e =
    ground (arith, mod_once (p + 1 + c) n, mod_once (p + 1 + d) n)
raid5_member_injective _ n p c d h k l e =
    ground (arith, mod_once (p + 1 + c) n, mod_once (p + 1 + d) n)

pub raid6_member_lem :
    (layout : ParityLayout) (n p q col : ℕ)
    → p < n
    → q ≡ (p + 1) % n
    → col < n - 2
    → (raid6_member layout n p q col < n)
      × (raid6_member layout n p q col ≢ p)
      × (raid6_member layout n p q col ≢ q)
unfolding raid6_member
raid6_member_lem left_symmetric n p q col h e k =
    ground (arith, mod_once (p + 1) n, mod_once (q + 1 + col) n, mod_once (step_over p q col) n)
raid6_member_lem _ n p q col h e k =
    ground (arith, mod_once (p + 1) n, mod_once (q + 1 + col) n, mod_once (step_over p q col) n)

pub raid6_member_injective :
    (layout : ParityLayout) (n p q c d : ℕ)
    → p < n
    → q ≡ (p + 1) % n
    → c < n - 2
    → d < n - 2
    → raid6_member layout n p q c ≡ raid6_member layout n p q d
    → c ≡ d
unfolding raid6_member
raid6_member_injective left_symmetric n p q c d h e k l s =
    ground (arith, mod_once (p + 1) n, mod_once (q + 1 + c) n, mod_once (q + 1 + d) n)
raid6_member_injective _ n p q c d h e k l s = ground (
  arith,
  mod_once (p + 1) n,
  mod_once (q + 1 + c) n,
  mod_once (q + 1 + d) n,
  mod_once (step_over p q c) n,
  mod_once (step_over p q d) n,
)

-- The members that hold data in a row are the columns below `data_disks`.
pub data_disks-pos : (level : RaidLevel) (n : ℕ) → min_members level ≤ n → 0 < data_disks level n
unfolding data_disks min_members
data_disks-pos raid0 n h = omega arith
data_disks-pos raid5 n h = omega arith
data_disks-pos raid6 n h = omega arith

pub two-le-members : (level : RaidLevel) (n : ℕ) → min_members level ≤ n → 2 ≤ n
unfolding min_members
two-le-members raid0 n h = h
two-le-members raid5 n h = omega arith
two-le-members raid6 n h = omega arith

pub data_disks-le : (level : RaidLevel) (n : ℕ) → data_disks level n ≤ n
unfolding data_disks
data_disks-le raid0 n = omega arith
data_disks-le raid5 n = omega arith
data_disks-le raid6 n = omega arith
