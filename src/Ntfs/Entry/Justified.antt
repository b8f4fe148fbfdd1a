-- ===== src/Ntfs/Entry/Justified.antt =====
-- The confidence that build_recoverable_entry of parser.rs gives a deleted file.
use vajra_forensics_platform.Prelude.{
  ℕ, arith, ap, ◌<◌, ◌≡◌, ◌⊎◌, refl, inl, inr, Bool, true, false, Bool-cases, not, ◌&&◌, ◌||◌, none,
  some, List, [], ◌∷◌, ltb, ◌==◌, get_or, ok,
}
use vajra_forensics_platform.Files.{
  MetadataConfidence, low, confirmed, DataLocation, resident, contiguous, fragmented, unresolved,
  RecoverableFileEntry, extents_of,
}
use vajra_forensics_platform.Ntfs.Boot.{NtfsBoot}
use vajra_forensics_platform.Ntfs.Record.{MftRecord}
use vajra_forensics_platform.Ntfs.Bitmap.Confidence.{
  clusters_of, IsJustified, evaluate_extents_confidence-IsJustified,
}
use vajra_forensics_platform.Ntfs.Entry.{
  default_data_stream, extents_confidence, location_confidence, location_or_unresolved, entry_of,
  build_recoverable_entry,
}

Justifies : List ℕ → NtfsBoot → Bool → DataLocation → Type 0
Justifies bitmap boot is_deleted location =
    (c : MetadataConfidence) × (location_confidence (some bitmap) boot is_deleted location ≡ ok c)
    × ((is_deleted ≡ true) → IsJustified bitmap (clusters_of boot (extents_of location)) c)

extents_confidence-IsJustified :
    (bitmap : List ℕ) (boot : NtfsBoot) (is_deleted : Bool) (extents : List (ℕ × ℕ))
    → 0 < boot.sectors_per_cluster
    → (c : MetadataConfidence) × (extents_confidence (some bitmap) boot is_deleted extents ≡ ok c)
      × ((is_deleted ≡ true) → IsJustified bitmap (clusters_of boot extents) c)
unfolding extents_confidence
extents_confidence-IsJustified bitmap boot true extents pos =
    let (c, e, justified) = evaluate_extents_confidence-IsJustified bitmap extents boot pos in
    (c, e, λ d. justified)
extents_confidence-IsJustified bitmap boot false extents pos = (confirmed, refl, λ d. absurd (cc d))

location_confidence-IsJustified :
    (bitmap : List ℕ) (boot : NtfsBoot) (is_deleted : Bool) (location : DataLocation)
    → 0 < boot.sectors_per_cluster
    → Justifies bitmap boot is_deleted location
unfolding Justifies location_confidence
location_confidence-IsJustified bitmap boot is_deleted (resident bytes) pos =
    (confirmed, refl, λ d. tt)
location_confidence-IsJustified bitmap boot is_deleted (contiguous start count) pos =
    extents_confidence-IsJustified bitmap boot is_deleted ((start, count) ∷ []) pos
location_confidence-IsJustified bitmap boot is_deleted (fragmented extents) pos =
    extents_confidence-IsJustified bitmap boot is_deleted extents pos
location_confidence-IsJustified bitmap boot is_deleted unresolved pos = (low, refl, λ d. tt)

module _ {DateTime : Type 0} where
  -- One of the first 16 records, with a name that begins with a dollar.
  abbrev pub IsSystem : MftRecord DateTime → List ℕ → Type 0
  IsSystem r name = (r.record_num < 16) × ((rest : List ℕ) × (name ≡ 36 ∷ rest))

  IsSystem-test :
      (r : MftRecord DateTime) (name : List ℕ)
      → (ltb r.record_num 16 && get_or name 0 0 == 36) ≡ true
      → IsSystem r name
  IsSystem-test r [] e = absurd (ground (arith, e))
  IsSystem-test r (c ∷ rest) e =
      let dollar : c ≡ 36 = ground (arith, e) in
      (ground (arith, e), (rest, ap (λ (x : ℕ). x ∷ rest) dollar))

  IsSystem-no_test :
      (r : MftRecord DateTime) (name : List ℕ)
      → (ltb r.record_num 16 && get_or name 0 0 == 36) ≡ false
      → IsSystem r name
      → ⊥
  IsSystem-no_test r name e (first, (rest, dollar)) =
      let here : get_or name 0 0 ≡ 36 = ap (λ (l : List ℕ). get_or l 0 0) dollar in
      absurd (ground (arith, e, first, here))

  -- The entry that a record becomes, if it is not of the system.
  abbrev pub IsBuilt : List ℕ → NtfsBoot → MftRecord DateTime → List ℕ → ℕ → Bool → Type 0
  IsBuilt bitmap boot r name record_id force_deleted =
      (IsSystem r name
        × (build_recoverable_entry (some bitmap) boot r name record_id force_deleted ≡ ok none))
      ⊎ ((IsSystem r name → ⊥)
          × ((e : RecoverableFileEntry DateTime) × (build_recoverable_entry (some bitmap) boot r
                  name record_id force_deleted
                ≡ ok (some e))
              × (e.filename ≡ some name)
              × (e.data_location ≡ location_or_unresolved (default_data_stream r))
              × (e.deleted ≡ (not r.is_in_use || force_deleted))
              × ((e.deleted ≡ true)
                  → IsJustified bitmap (clusters_of boot (extents_of e.data_location))
                      e.metadata_confidence)))

  -- On a volume with a bitmap and sectors in its clusters, a record gives no entry when it is one
  -- of the first 16 and its name begins with a dollar, and else an entry of its name, in the
  -- place of its unnamed data attribute, deleted when the record is not in use or the caller says
  -- so. The confidence of a deleted entry is justified by the bits of the bitmap: confirmed only
  -- if all clusters of its data are free, partial only if some are and some are not, low only if
  -- none is.
  pub build_recoverable_entry-IsJustified :
      (bitmap : List ℕ) (boot : NtfsBoot) (r : MftRecord DateTime) (name : List ℕ) (record_id : ℕ)
      → (force_deleted : Bool) → 0 < boot.sectors_per_cluster
      → IsBuilt bitmap boot r name record_id force_deleted
  unfolding build_recoverable_entry Justifies entry_of
  build_recoverable_entry-IsJustified bitmap boot r name record_id force_deleted pos =
      let is_deleted = not r.is_in_use || force_deleted in
      let location = location_or_unresolved (default_data_stream r) in
      elim (Bool-cases (ltb r.record_num 16 && get_or name 0 0 == 36)) [
        | inl system ↦ inl (IsSystem-test r name system, rw (system) refl)
        | inr user ↦
            let (c, e, justified) =
              location_confidence-IsJustified bitmap boot is_deleted location pos in
            inr (
              λ system. IsSystem-no_test r name user system,
              (
                entry_of r name record_id is_deleted c,
                rw (user, e) refl,
                refl,
                refl,
                refl,
                justified,
              ),
            )
      ]
