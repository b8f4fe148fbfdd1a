-- ===== src/Ntfs/Record/Gathered.antt =====
-- What the attributes of a record give: the parse_mft_record of mft.rs as a relation.
use vajra_forensics_platform.Prelude.{
  ℕ, ◌+◌, ◌*◌, ◌≤◌, ◌<◌, ◌≡◌, inl, inr, true, false, Bool-cases, ◌&&◌, Option, some, Option-cases,
  List, [], ◌∷◌, ◌++◌, leb, ◌==◌, length, get_or, slice, le16, le32, le64, ok, Result-cases, subst,
  arith,
}
use vajra_forensics_platform.Files.{resident}
use vajra_forensics_platform.Ntfs.Boot.{NtfsBoot}
use vajra_forensics_platform.Ntfs.Runs.{decode_data_runs}
use vajra_forensics_platform.Ntfs.Attribute.{
  StandardInformationAttr, FileNameAttr, DataAttr, Found, location_of, standard_info_of,
  file_name_of, add_resident, add_non_resident,
}
use vajra_forensics_platform.Ntfs.Record.{attr_name_at, parse_attribute}

-- The value of a resident attribute, and the run list of another one.
abbrev pub value_at : List ℕ → ℕ → List ℕ
value_at bytes at =
    slice bytes (at + le16 bytes (at + 20)) (at + le16 bytes (at + 20) + le32 bytes (at + 16))

abbrev pub runlist_at : List ℕ → ℕ → List ℕ
runlist_at bytes at = slice bytes (at + le16 bytes (at + 32)) (at + le32 bytes (at + 4))

-- A resident attribute of a type whose value lies in the record.
pub HoldsValue : List ℕ → ℕ → ℕ → Type 0
HoldsValue bytes at attr_type =
    (get_or bytes (at + 8) 0 ≡ 0)
    × (at + le16 bytes (at + 20) + le32 bytes (at + 16) ≤ length bytes)
    × (le32 bytes at ≡ attr_type)

pub IsInfo : List ℕ → ℕ → Type 0
IsInfo bytes at = HoldsValue bytes at 16 × (36 ≤ length (value_at bytes at))

pub IsName : List ℕ → ℕ → Type 0
IsName bytes at =
    HoldsValue bytes at 48
    × (66 ≤ length (value_at bytes at))
    × (66 + get_or (value_at bytes at) 64 0 * 2 ≤ length (value_at bytes at))

-- Data outside of the record, in the extents of its run list.
pub LiesIn : NtfsBoot → List ℕ → ℕ → List (ℕ × ℕ) → Type 0
LiesIn boot bytes at extents =
    (0 < get_or bytes (at + 8) 0)
    × (at + 64 ≤ length bytes)
    × (at + le16 bytes (at + 32) ≤ length bytes)
    × (le32 bytes at ≡ 128)
    × (decode_data_runs (runlist_at bytes at) boot ≡ some (ok extents))

module _ {DateTime : Type 0} (timestamp_opt : ℕ → ℕ → Option DateTime) where
  abbrev pub with_info : StandardInformationAttr DateTime → Found DateTime → Found DateTime
  with_info info found = record {
    standard_info = some info;
    file_names = found.file_names;
    data_attributes = found.data_attributes;
  }

  abbrev pub with_name : FileNameAttr DateTime → Found DateTime → Found DateTime
  with_name name found = record {
    standard_info = found.standard_info;
    file_names = found.file_names ++ name ∷ [];
    data_attributes = found.data_attributes;
  }

  abbrev pub with_data : DataAttr → Found DateTime → Found DateTime
  with_data attr found = record {
    standard_info = found.standard_info;
    file_names = found.file_names;
    data_attributes = found.data_attributes ++ attr ∷ [];
  }

  -- Data in the record, and data outside of it.
  abbrev pub data_inside : List ℕ → ℕ → DataAttr
  data_inside bytes at = record {
    name = attr_name_at bytes at;
    is_non_resident = false;
    allocated_size = length (value_at bytes at);
    real_size = length (value_at bytes at);
    location = resident (value_at bytes at);
  }

  abbrev pub data_outside : List ℕ → ℕ → List (ℕ × ℕ) → DataAttr
  data_outside bytes at extents = record {
    name = attr_name_at bytes at;
    is_non_resident = true;
    allocated_size = le64 bytes (at + 40);
    real_size = le64 bytes (at + 48);
    location = location_of extents;
  }

  -- What an attribute adds to what was found before it.
  pub data Adds (boot : NtfsBoot) (bytes : List ℕ) (at : ℕ) (found : Found DateTime)
      : Found DateTime → Type 0 where
    adds_info :
        IsInfo bytes at
        → Adds boot bytes at found
            (with_info (standard_info_of timestamp_opt (value_at bytes at)) found)
    adds_name :
        IsName bytes at
        → Adds boot bytes at found
            (with_name (file_name_of timestamp_opt (value_at bytes at)) found)
    adds_data :
        HoldsValue bytes at 128 → Adds boot bytes at found (with_data (data_inside bytes at) found)
    adds_runs :
        (extents : List (ℕ × ℕ))
        → LiesIn boot bytes at extents
        → Adds boot bytes at found (with_data (data_outside bytes at extents) found)
    adds_nothing :
        (IsInfo bytes at → ⊥)
        → (IsName bytes at → ⊥)
        → (HoldsValue bytes at 128 → ⊥)
        → ((extents : List (ℕ × ℕ)) → LiesIn boot bytes at extents → ⊥)
        → Adds boot bytes at found found

  resident-Adds :
      (boot : NtfsBoot) (bytes : List ℕ) (at : ℕ) (found : Found DateTime)
      → get_or bytes (at + 8) 0 ≡ 0
      → at + le16 bytes (at + 20) + le32 bytes (at + 16) ≤ length bytes
      → Adds boot bytes at found (
          add_resident timestamp_opt
            (le32 bytes at)
            (attr_name_at bytes at)
            (value_at bytes at)
            found)
  unfolding add_resident HoldsValue IsInfo IsName LiesIn
  resident-Adds boot bytes at found here inside =
      let value = value_at bytes at in
      let size = length value in
      elim (Bool-cases (le32 bytes at == 16 && leb 36 size)) [
        | inl info ↦
            rw info (adds_info ((here, inside, ground (arith, info)), ground (arith, info)))
        | inr no_info ↦
            elim (Bool-cases
              (le32 bytes at == 48 && leb 66 size && leb (66 + get_or value 64 0 * 2) size)) [
                | inl name ↦
                    rw (no_info, name)
                      (adds_name (
                        (here, inside, ground (arith, name)),
                        ground (arith, name),
                        ground (arith, name),
                      ))
                | inr no_name ↦ elim (Bool-cases (le32 bytes at == 128)) [
                  | inl inside_data ↦
                      rw (no_info, no_name, inside_data)
                        (adds_data (here, inside, ground (arith, inside_data)))
                  | inr no_data ↦
                      rw (no_info, no_name, no_data)
                        (adds_nothing (λ ((a, b, c), d). absurd (ground (arith, no_info, c, d)))
                          (λ ((a, b, c), d, e). absurd (ground (arith, no_name, c, d, e)))
                          (λ (a, b, c). absurd (ground (arith, no_data, c)))
                          (λ extents (a, b, c, d, e). absurd (omega (arith, here, a))))
                ]
              ]
      ]

  -- Nothing is added by an attribute that is resident with a value outside of the record.
  outside-Adds :
      (boot : NtfsBoot) (bytes : List ℕ) (at : ℕ) (found : Found DateTime)
      → get_or bytes (at + 8) 0 ≡ 0
      → (at + le16 bytes (at + 20) + le32 bytes (at + 16) ≤ length bytes → ⊥)
      → Adds boot bytes at found found
  unfolding HoldsValue IsInfo IsName LiesIn
  outside-Adds boot bytes at found here outside =
      adds_nothing (λ ((a, b, c), d). outside b) (λ ((a, b, c), d, e). outside b)
        (λ (a, b, c). outside b) (λ extents (a, b, c, d, e). absurd (omega (arith, here, a)))

  -- Nothing is added by another attribute without data in a run list that can be decoded.
  no_runs-Adds :
      (boot : NtfsBoot) (bytes : List ℕ) (at : ℕ) (found : Found DateTime)
      → 0 < get_or bytes (at + 8) 0
      → ((extents : List (ℕ × ℕ)) → LiesIn boot bytes at extents → ⊥)
      → Adds boot bytes at found found
  unfolding HoldsValue IsInfo IsName
  no_runs-Adds boot bytes at found other no_runs =
      adds_nothing (λ ((a, b, c), d). absurd (omega (arith, other, a)))
        (λ ((a, b, c), d, e). absurd (omega (arith, other, a)))
        (λ (a, b, c). absurd (omega (arith, other, a))) no_runs

  runs-Adds :
      (boot : NtfsBoot) (bytes : List ℕ) (at : ℕ) (found : Found DateTime)
      → 0 < get_or bytes (at + 8) 0
      → at + 64 ≤ length bytes
      → at + le16 bytes (at + 32) ≤ length bytes
      → Adds boot bytes at found (
          add_non_resident boot
            (le32 bytes at)
            (λ location. record {
              name = attr_name_at bytes at;
              is_non_resident = true;
              allocated_size = le64 bytes (at + 40);
              real_size = le64 bytes (at + 48);
              location = location;
            })
            (runlist_at bytes at)
            found)
  unfolding add_non_resident LiesIn
  runs-Adds boot bytes at found other header list =
      let runs = runlist_at bytes at in
      elim (Option-cases (decode_data_runs runs boot)) [
        | inl endless ↦
            rw (add_non_resident, endless)
              (no_runs-Adds boot bytes at found other
                (λ extents (a, b, c, d, e). absurd (ground (arith, endless, e))))
        | inr (r, decoded) ↦ elim (Result-cases r) [
          | inr (inl (x, fails)) ↦
              rw (add_non_resident, decoded, fails)
                (no_runs-Adds boot bytes at found other
                  (λ extents (a, b, c, d, e). absurd (ground (arith, decoded, fails, e))))
          | inr (inr panics) ↦
              rw (add_non_resident, decoded, panics)
                (no_runs-Adds boot bytes at found other
                  (λ extents (a, b, c, d, e). absurd (ground (arith, decoded, panics, e))))
          | inl (extents, given) ↦
              let runs_given : decode_data_runs runs boot ≡ some (ok extents) =
                cc (decoded, given) in
              elim (Bool-cases (le32 bytes at == 128)) [
                | inl is_data ↦
                    rw (add_non_resident, decoded, given, is_data)
                      (adds_runs extents (other, header, list, ground (arith, is_data), runs_given))
                | inr no_data ↦
                    rw (add_non_resident, decoded, given, no_data)
                      (no_runs-Adds boot bytes at found other
                        (λ x (a, b, c, d, e). absurd (ground (arith, no_data, d))))
              ]
        ]
      ]

  not_there :
      (bytes : List ℕ) (at : ℕ)
      → (leb (at + 64) (length bytes) && leb (at + le16 bytes (at + 32)) (length bytes)) ≡ false
      → at + 64 ≤ length bytes
      → at + le16 bytes (at + 32) ≤ length bytes
      → ⊥
  not_there bytes at outside header list = absurd (ground (arith, outside, header, list))

  runs_parsed :
      (boot : NtfsBoot) (bytes : List ℕ) (at : ℕ) (found more : Found DateTime)
      → (get_or bytes (at + 8) 0 == 0) ≡ false
      → (leb (at + 64) (length bytes) && leb (at + le16 bytes (at + 32)) (length bytes)) ≡ true
      → parse_attribute timestamp_opt boot bytes at found ≡ ok more
      → add_non_resident boot
          (le32 bytes at)
          (λ location. record {
            name = attr_name_at bytes at;
            is_non_resident = true;
            allocated_size = le64 bytes (at + 40);
            real_size = le64 bytes (at + 48);
            location = location;
          })
          (runlist_at bytes at)
          found
        ≡ more
  unfolding parse_attribute
  runs_parsed boot bytes at found more other inside parsed = ground (arith, parsed, other, inside)

  pub parse_attribute-Adds :
      (boot : NtfsBoot) (bytes : List ℕ) (at : ℕ) (found more : Found DateTime)
      → parse_attribute timestamp_opt boot bytes at found ≡ ok more
      → Adds boot bytes at found more
  unfolding parse_attribute LiesIn
  parse_attribute-Adds boot bytes at found more parsed =
      let val_end = at + le16 bytes (at + 20) + le32 bytes (at + 16) in
      elim (Bool-cases (get_or bytes (at + 8) 0 == 0)) [
        | inl here ↦ elim (Bool-cases (leb val_end (length bytes))) [
          | inl inside ↦
              let same : add_resident timestamp_opt (le32 bytes at) (attr_name_at bytes at)
                    (value_at bytes at) found
                  ≡ more =
                ground (arith, parsed, here, inside) in
              subst (λ x. Adds boot bytes at found x) same
                (resident-Adds boot bytes at found (ground (arith, here)) (ground (arith, inside)))
          | inr outside ↦
              let same : found ≡ more = ground (arith, parsed, here, outside) in
              subst (λ x. Adds boot bytes at found x) same
                (outside-Adds boot bytes at found (ground (arith, here))
                  (λ fits. absurd (ground (arith, outside, fits))))
        ]
        | inr other ↦
            let pos : 0 < get_or bytes (at + 8) 0 = ground (arith, other) in
            let runlist_offset = le16 bytes (at + 32) in
            elim (Bool-cases
              (leb (at + 64) (length bytes) && leb (at + runlist_offset) (length bytes))) [
                | inl inside ↦
                    let same = runs_parsed boot bytes at found more other inside parsed in
                    subst (λ x. Adds boot bytes at found x) same
                      (runs-Adds boot bytes at found pos (ground (arith, inside))
                        (ground (arith, inside)))
                | inr outside ↦
                    let same : found ≡ more = ground (arith, parsed, other, outside) in
                    subst (λ x. Adds boot bytes at found x) same
                      (no_runs-Adds boot bytes at found pos
                        (λ x (a, b, c, d, e). absurd (not_there bytes at outside b c)))
              ]
      ]
