-- ===== src/Audit/Anchor/History.antt =====
-- What an anchor of anchor.rs says of the entries before it.
use mathlib.Core.List.{append_assoc}
use vajra_forensics_platform.Prelude.{
  ℕ, ◌+◌, ◌^◌, ◌<◌, ◌≡◌, refl, ap, sym, subst, ◌∙◌, Bool-cases, Option-cases, inl, inr, some, List,
  [], ◌∷◌, ◌++◌, ◌==◌, ==_iff, u64, eq_iff, length, String, find, ok, arith, bind-ok, ok_injective,
  ◌>>=◌,
}
use vajra_forensics_platform.Audit.Entry.{AuditEntry, Hasher, genesis_prev_hash}
use vajra_forensics_platform.Audit.Table.{AuditLogRecord}
use vajra_forensics_platform.Audit.Chain.{
  verify_entries, ChainReport, EntryJson, last_of, load_entries,
}
use vajra_forensics_platform.Audit.Chain.Sound.{IsLinked, head_hash, verify_entries_iff}
use vajra_forensics_platform.Audit.Chain.Tamper.{IsBinding, IsLinked-unique}
use vajra_forensics_platform.Audit.Anchor.{
  checkpoint_of, AnchorCheckpoint, AnchorVerificationReport, Pki, export_anchor, inspect,
  verify_anchor, check_signature, anchor_of,
}

some_injective : {e f : AuditEntry} → some e ≡ some f → e ≡ f
some_injective eq = cc eq

module _ (h : Hasher) where
  -- The last entry of a chain has its number and its hash.
  last_lem :
      (i : ℕ) (s : String) (e : AuditEntry) (es : List AuditEntry)
      → IsLinked h i s (e ∷ es)
      → ((last_of e es).payload.seq ≡ u64 (i + length (e ∷ es)))
        × (head_hash s (e ∷ es) ≡ (last_of e es).entry_hash)
  unfolding IsLinked head_hash last_of
  last_lem i s e [] linked = (omega (arith, linked.0), refl)
  last_lem i s e (f ∷ es) (seq, prev, hash, linked) =
      let (n, head) = last_lem (i + 1) e.entry_hash f es linked in (omega (arith, n), head)

  -- The entry that is found by its number ends the chain of as many entries.
  abbrev pub IsFound : ℕ → String → List AuditEntry → ℕ → AuditEntry → Type 0
  IsFound i s fs n f =
      (pre : List AuditEntry) × (post : List AuditEntry) × (fs ≡ pre ++ (f ∷ post))
      × (i + length (pre ++ (f ∷ [])) ≡ n)
      × IsLinked h i s (pre ++ (f ∷ []))
      × (head_hash s (pre ++ (f ∷ [])) ≡ f.entry_hash)

  find-IsFound :
      (i : ℕ) (s : String) (fs : List AuditEntry) (n : ℕ) (f : AuditEntry)
      → IsLinked h i s fs
      → i + length fs < 2 ^ 64
      → find (λ (e : AuditEntry). e.payload.seq == n) fs ≡ some f
      → IsFound i s fs n f
  unfolding IsLinked head_hash
  find-IsFound i s [] n f linked fits found = absurd (ground (arith, found))
  find-IsFound i s (e ∷ fs) n f (seq, prev, hash, linked) fits found =
      elim (Bool-cases (e.payload.seq == n)) [
        | inl here ↦
            let same : e ≡ f = some_injective (ground (arith, found, here)) in
            let alone : IsFound i s (e ∷ fs) n e = (
              [],
              fs,
              refl,
              omega (arith, seq, (==_iff e.payload.seq n).0 here, fits),
              (seq, prev, hash, tt),
              refl,
            ) in
            subst (λ x. IsFound i s (e ∷ fs) n x) same alone
        | inr other ↦
            let (pre, post, split, size, chain, head) =
              find-IsFound (i + 1) e.entry_hash fs n f linked (omega (arith, fits))
                (ground (arith, found, other)) in
            (
              e ∷ pre,
              post,
              ap (λ l. e ∷ l) split,
              omega (arith, size),
              (seq, prev, hash, chain),
              head,
            )
      ]

  inspect-find :
      (pki : Pki) (json : EntryJson) (cp : AnchorCheckpoint) (fs : List AuditEntry)
      → (report : AnchorVerificationReport) → inspect h pki json cp fs ≡ ok report
      → (f : AuditEntry) × (find (λ (e : AuditEntry). e.payload.seq == cp.sequence) fs ≡ some f)
        × (f.entry_hash ≡ cp.chain_head_hash)
  unfolding inspect
  inspect-find pki json cp fs report accepted =
      elim (Option-cases (find (λ (e : AuditEntry). e.payload.seq == cp.sequence) fs)) [
        | inl missing ↦ absurd (ground (arith, accepted, missing))
        | inr (f, found) ↦
            (f, found, ground (arith, accepted, found, eq_iff f.entry_hash cp.chain_head_hash))
      ]

  verify_anchor-inspect :
      (pki : Pki) (json : EntryJson) (cp : AnchorCheckpoint) (rows : List AuditLogRecord)
      → (fs : List AuditEntry) → load_entries h json rows ≡ ok fs
      → (report : AnchorVerificationReport) → verify_anchor h pki json cp rows ≡ ok report
      → inspect h pki json cp fs ≡ ok report
  unfolding verify_anchor
  verify_anchor-inspect pki json cp rows fs loaded report accepted =
      let (sig_ok, signed, step) = bind-ok (check_signature h pki json cp) _ report accepted in
      elim (Bool-cases sig_ok) [
        | inl valid ↦
            let inspected : (load_entries h json rows >>= inspect h pki json cp) ≡ ok report =
              ground (arith, step, valid) in
            subst (λ x. (x >>= inspect h pki json cp) ≡ ok report) loaded inspected
        | inr invalid ↦ absurd (ground (arith, step, invalid))
      ]

  export_anchor-head :
      (pki : Pki) (json : EntryJson) (now case_id operator_id : String) (rows : List AuditLogRecord)
      → (es : List AuditEntry) → load_entries h json rows ≡ ok es
      → IsLinked h 0 genesis_prev_hash es
      → (cp : AnchorCheckpoint) → export_anchor h pki json now case_id operator_id rows ≡ ok cp
      → (cp.sequence ≡ u64 (length es)) × (cp.chain_head_hash ≡ head_hash genesis_prev_hash es)
  unfolding export_anchor checkpoint_of
  export_anchor-head pki json now case_id operator_id rows [] loaded linked cp exported =
      let made =
        subst (λ x. (x >>= anchor_of h pki json now case_id operator_id) ≡ ok cp) loaded exported in
      absurd (ground (arith, made))
  export_anchor-head pki json now case_id operator_id rows (e ∷ es) loaded linked cp exported =
      let made =
        subst (λ x. (x >>= anchor_of h pki json now case_id operator_id) ≡ ok cp) loaded exported in
      let is_cp = ok_injective made in
      let (seq, head) = last_lem 0 genesis_prev_hash e es linked in
      (
        ap (λ (c : AnchorCheckpoint). c.sequence) (sym is_cp) ∙ omega (arith, seq),
        ap (λ (c : AnchorCheckpoint). c.chain_head_hash) (sym is_cp) ∙ sym head,
      )

  -- Defence against a rewrite of history: when an anchor that was exported from a log agrees with
  -- a later table, and the check accepts the entries of both, the later entries are those of the
  -- anchored log with entries after them; SHA-256 has no collisions, a JSON object ends where its
  -- braces close, and each log has fewer than 2 ^ 64 entries.
  pub verify_anchor_history :
      IsBinding h
      → (pki : Pki) (json : EntryJson) (now case_id operator_id : String)
      → (rows later : List AuditLogRecord) (es fs : List AuditEntry) (r r' : ChainReport)
      → load_entries h json rows ≡ ok es
      → load_entries h json later ≡ ok fs
      → verify_entries h es ≡ ok r
      → verify_entries h fs ≡ ok r'
      → length es < 2 ^ 64
      → length fs < 2 ^ 64
      → (cp : AnchorCheckpoint) → export_anchor h pki json now case_id operator_id rows ≡ ok cp
      → (report : AnchorVerificationReport) → verify_anchor h pki json cp later ≡ ok report
      → (after : List AuditEntry) × (fs ≡ es ++ after)
  verify_anchor_history binding pki json now case_id operator_id rows later es fs r r' loaded
        loaded_later checked checked_later fits fits_later cp exported report accepted =
      let linked = ((verify_entries_iff h es r).0 checked).0 in
      let linked_later = ((verify_entries_iff h fs r').0 checked_later).0 in
      let (seq, head) =
        export_anchor-head pki json now case_id operator_id rows es loaded linked cp exported in
      let inspected = verify_anchor-inspect pki json cp later fs loaded_later report accepted in
      let (f, found, hash) = inspect-find pki json cp fs report inspected in
      let (pre, post, split, size, chain, last) =
        find-IsFound 0 genesis_prev_hash fs cp.sequence f linked_later (omega (arith, fits_later))
          found in
      let same =
        IsLinked-unique h binding 0 0 genesis_prev_hash genesis_prev_hash (pre ++ (f ∷ [])) es chain
          linked (omega (arith, size, seq, fits)) (last ∙ hash ∙ head) in
      (post, split ∙ sym (append_assoc pre (f ∷ []) post) ∙ ap (λ l. l ++ post) same.0)
