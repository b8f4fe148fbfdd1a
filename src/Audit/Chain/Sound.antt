-- ===== src/Audit/Chain/Sound.antt =====
-- What the chain check of chain.rs decides: which chains it accepts, and how a chain is extended.
use vajra_forensics_platform.Prelude.{
  ℕ, ◌+◌, ◌≡◌, ◌↔◌, refl, ap, sym, ◌∙◌, bind-ok, ok_injective, Bool, true, List, [], ◌∷◌, ◌++◌,
  String, eq_iff, u64, length, ok, arith, ==_iff,
}
use vajra_forensics_platform.Audit.Entry.{
  AuditEntry, Hasher, genesis_prev_hash, verify_integrity, calculate_hash,
}
use vajra_forensics_platform.Audit.Chain.{verify_from, verify_entries, last_of, ChainReport}

-- The hash at the head of a chain.
unfoldable pub head_hash : String → List AuditEntry → String
head_hash prev [] = prev
head_hash prev (e ∷ es) = head_hash e.entry_hash es

module _ (h : Hasher) where
  -- What a chain of entries promises, from index `i` and the hash of the entry before.
  unfoldable pub IsLinked : ℕ → String → List AuditEntry → Type 0
  IsLinked i prev [] = Unit
  IsLinked i prev (e ∷ es) =
      (e.payload.seq ≡ u64 (i + 1))
      × (e.prev_hash ≡ prev)
      × (e.entry_hash ≡ calculate_hash h e.payload e.prev_hash)
      × IsLinked (i + 1) e.entry_hash es

  -- One step of the loop: an accepted chain passes the three checks, and its rest is accepted.
  step_sound :
      (i : ℕ) (prev : String) (e : AuditEntry) (es : List AuditEntry) (b : Bool)
      → verify_from h i prev (e ∷ es) ≡ ok b
      → (e.payload.seq ≡ u64 (i + 1))
        × (e.prev_hash ≡ prev)
        × (e.entry_hash ≡ calculate_hash h e.payload e.prev_hash)
        × (verify_from h (i + 1) e.entry_hash es ≡ ok b)
  unfolding verify_from verify_integrity
  step_sound i prev e es b eq = ground (
    arith,
    ==_iff e.payload.seq (u64 (i + 1)),
    eq_iff e.prev_hash prev,
    eq_iff e.entry_hash (calculate_hash h e.payload e.prev_hash),
  )

  pub verify_from_sound :
      (i : ℕ) (prev : String) (es : List AuditEntry) (b : Bool)
      → verify_from h i prev es ≡ ok b
      → IsLinked i prev es
  unfolding IsLinked
  verify_from_sound i prev [] b eq = tt
  verify_from_sound i prev (e ∷ es) b eq =
      let (s, p, hash, rest) = step_sound i prev e es b eq in
      (s, p, hash, verify_from_sound (i + 1) e.entry_hash es b rest)

  pub verify_from_complete :
      (i : ℕ) (prev : String) (es : List AuditEntry)
      → IsLinked i prev es
      → verify_from h i prev es ≡ ok true
  unfolding verify_from IsLinked verify_integrity
  verify_from_complete i prev [] l = refl
  verify_from_complete i prev (e ∷ es) (s, p, hash, l) = ground (
    arith,
    ==_iff e.payload.seq (u64 (i + 1)),
    eq_iff e.prev_hash prev,
    eq_iff e.entry_hash (calculate_hash h e.payload e.prev_hash),
    verify_from_complete (i + 1) e.entry_hash es l,
    s,
    p,
    hash,
  )

  -- The report on a chain of entries.
  unfoldable pub report_of : List AuditEntry → ChainReport
  unfolding last_of
  report_of [] = record {
    total_entries = 0;
    first_seq = 0;
    latest_seq = 0;
    latest_hash = genesis_prev_hash;
    is_valid = true;
  }
  report_of (e ∷ es) = record {
    total_entries = length (e ∷ es);
    first_seq = e.payload.seq;
    latest_seq = (last_of e es).payload.seq;
    latest_hash = (last_of e es).entry_hash;
    is_valid = true;
  }

  pub report_of-length : (es : List AuditEntry) → (report_of es).total_entries ≡ length es
  unfolding report_of
  report_of-length [] = refl
  report_of-length (e ∷ es) = refl

  last_of-head :
      (e : AuditEntry) (es : List AuditEntry)
      → (last_of e es).entry_hash ≡ head_hash e.entry_hash es
  unfolding last_of head_hash
  last_of-head e [] = refl
  last_of-head e (f ∷ fs) = last_of-head f fs

  pub report_of-head :
      (es : List AuditEntry) → (report_of es).latest_hash ≡ head_hash genesis_prev_hash es
  unfolding report_of head_hash
  report_of-head [] = refl
  report_of-head (e ∷ es) = last_of-head e es

  pub verify_entries_complete :
      (es : List AuditEntry)
      → IsLinked 0 genesis_prev_hash es
      → verify_entries h es ≡ ok (report_of es)
  unfolding verify_entries report_of
  verify_entries_complete [] l = refl
  verify_entries_complete (e ∷ es) l = rw (verify_from_complete 0 genesis_prev_hash (e ∷ es) l)

  verify_entries_sound :
      (es : List AuditEntry) (r : ChainReport)
      → verify_entries h es ≡ ok r
      → IsLinked 0 genesis_prev_hash es
  unfolding verify_entries IsLinked
  verify_entries_sound [] r eq = tt
  verify_entries_sound (e ∷ es) r eq =
      let (b, checked, made) = bind-ok (verify_from h 0 genesis_prev_hash (e ∷ es)) _ r eq in
      verify_from_sound 0 genesis_prev_hash (e ∷ es) b checked

  -- A chain is accepted exactly when every entry has the next number, holds the hash of the entry
  -- before it, and its own hash is that of its payload and of that hash; the report then tells of
  -- that chain.
  pub verify_entries_iff :
      (es : List AuditEntry) (r : ChainReport)
      → (verify_entries h es ≡ ok r) ↔ (IsLinked 0 genesis_prev_hash es × (report_of es ≡ r))
  verify_entries_iff es r = (
    λ eq.
        let linked = verify_entries_sound es r eq in
        (linked, ok_injective (sym (verify_entries_complete es linked) ∙ eq)),
    λ (linked, report). verify_entries_complete es linked ∙ ap ok report,
  )

  -- The next entry extends a chain.
  pub IsLinked-snoc :
      (i : ℕ) (prev : String) (es : List AuditEntry) (e : AuditEntry)
      → IsLinked i prev es
      → e.payload.seq ≡ u64 (i + length es + 1)
      → e.prev_hash ≡ head_hash prev es
      → e.entry_hash ≡ calculate_hash h e.payload e.prev_hash
      → IsLinked i prev (es ++ e ∷ [])
  unfolding IsLinked head_hash
  IsLinked-snoc i prev [] e l s p hash = (s ∙ ap u64 (omega arith), p, hash, tt)
  IsLinked-snoc i prev (f ∷ fs) e (fs_seq, fp, fh, l) s p hash =
      (fs_seq, fp, fh, IsLinked-snoc (i + 1) f.entry_hash fs e l (s ∙ ap u64 (omega arith)) p hash)
