-- ===== src/Verify/Chain/Agrees.antt =====
-- The check of verifier.rs beside the check of crates/vajra-audit/src/chain.rs.
use vajra_forensics_platform.Prelude.{
  ℕ, ◌+◌, ◌<◌, ◌≡◌, ◌↔◌, refl, sym, List, [], ◌∷◌, ◌++◌, map, String, eq_iff, ==_iff, u64, ok,
  arith,
}
use vajra_forensics_platform.Audit.Entry.{AuditEntry, Hasher, genesis_prev_hash, calculate_hash}
use vajra_forensics_platform.Audit.Chain.{ChainReport, verify_entries}
use vajra_forensics_platform.Audit.Chain.Sound.{IsLinked, verify_entries_iff, report_of}
use vajra_forensics_platform.Verify.Chain.{
  VjrAuditEntry, pass, hashable_payload, compute_independent_entry_hash, chain_from, chain_check,
}

-- An entry of a report as an entry of the log.
abbrev pub audit_entry : VjrAuditEntry → AuditEntry
audit_entry e = record {
  payload = hashable_payload e;
  prev_hash = e.prev_hash;
  entry_hash = e.entry_hash;
}

module _ (h : Hasher) where
  chain_from-IsLinked :
      (i k last : ℕ) (prev : String) (es : List VjrAuditEntry)
      → 0 < i
      → last ≡ u64 k
      → IsLinked h k prev (map audit_entry es)
      → chain_from h i last prev es ≡ pass
  unfolding chain_from compute_independent_entry_hash IsLinked calculate_hash
  chain_from-IsLinked i k last prev [] pos e l = refl
  chain_from-IsLinked i k last prev (x ∷ es) pos e (numbered, linked, hashed, rest) =
      let next : u64 (last + 1) ≡ u64 (k + 1) = omega (arith, e) in
      ground (
        arith,
        next,
        numbered,
        ==_iff x.seq (u64 (last + 1)),
        eq_iff x.prev_hash prev,
        linked,
        eq_iff (compute_independent_entry_hash h x) x.entry_hash,
        hashed,
        chain_from-IsLinked (i + 1) (k + 1) x.seq x.entry_hash es (omega arith) numbered rest,
      )

  chain_from_sound :
      (i last : ℕ) (prev : String) (es : List VjrAuditEntry)
      → 0 < i
      → last ≡ u64 i
      → chain_from h i last prev es ≡ pass
      → IsLinked h i prev (map audit_entry es)
  unfolding chain_from compute_independent_entry_hash IsLinked calculate_hash
  chain_from_sound i last prev [] pos e passed = tt
  chain_from_sound i last prev (x ∷ es) pos e passed =
      let next : u64 (last + 1) ≡ u64 (i + 1) = omega (arith, e) in
      let numbered : x.seq ≡ u64 (i + 1) =
        ground (arith, next, passed, ==_iff x.seq (u64 (i + 1)), ==_iff x.seq (u64 (last + 1))) in
      let linked : x.prev_hash ≡ prev = ground (arith, passed, eq_iff x.prev_hash prev) in
      let hashed : compute_independent_entry_hash h x ≡ x.entry_hash =
        ground (arith, passed, eq_iff (compute_independent_entry_hash h x) x.entry_hash) in
      let rest : chain_from h (i + 1) x.seq x.entry_hash es ≡ pass = ground (arith, passed) in
      (
        numbered,
        linked,
        sym hashed,
        chain_from_sound (i + 1) x.seq x.entry_hash es (omega arith) numbered rest,
      )

  segment-pass :
      (k : ℕ) (prev : String) (x : VjrAuditEntry) (es : List VjrAuditEntry)
      → IsLinked h k prev (map audit_entry (x ∷ es))
      → chain_check h (x ∷ es) ≡ pass
  unfolding chain_check chain_from compute_independent_entry_hash IsLinked calculate_hash
  segment-pass k prev x es (numbered, linked, hashed, rest) = ground (
    arith,
    eq_iff (compute_independent_entry_hash h x) x.entry_hash,
    hashed,
    chain_from-IsLinked 1 (k + 1) x.seq x.entry_hash es (omega arith) numbered rest,
  )

  IsLinked-suffix :
      (k : ℕ) (prev : String) (before after : List VjrAuditEntry)
      → IsLinked h k prev (map audit_entry (before ++ after))
      → (j : ℕ) × (hash : String) × IsLinked h j hash (map audit_entry after)
  unfolding IsLinked
  IsLinked-suffix k prev [] after linked = (k, prev, linked)
  IsLinked-suffix k prev (x ∷ before) after (numbered, held, hashed, rest) =
      IsLinked-suffix (k + 1) x.entry_hash before after rest

  -- Every segment that ends an accepted log, and is not empty, passes the check of the verifier
  -- of reports, wherever it begins.
  pub chain_check-segment :
      (before : List VjrAuditEntry) (x : VjrAuditEntry) (after : List VjrAuditEntry)
      → (r : ChainReport) → verify_entries h (map audit_entry (before ++ (x ∷ after))) ≡ ok r
      → chain_check h (x ∷ after) ≡ pass
  chain_check-segment before x after r accepted =
      let linked = ((verify_entries_iff h _ r).0 accepted).0 in
      let (j, hash, segment) = IsLinked-suffix 0 genesis_prev_hash before (x ∷ after) linked in
      segment-pass j hash x after segment

  from_genesis :
      (x : VjrAuditEntry) (es : List VjrAuditEntry)
      → chain_check h (x ∷ es) ≡ pass
      → x.seq ≡ 1
      → x.prev_hash ≡ genesis_prev_hash
      → IsLinked h 0 genesis_prev_hash (map audit_entry (x ∷ es))
  unfolding chain_check chain_from compute_independent_entry_hash IsLinked calculate_hash
  from_genesis x es passed first genesis =
      let hashed : compute_independent_entry_hash h x ≡ x.entry_hash =
        ground (arith, passed, eq_iff (compute_independent_entry_hash h x) x.entry_hash) in
      let rest : chain_from h 1 x.seq x.entry_hash es ≡ pass = ground (arith, passed) in
      (
        omega (arith, first),
        genesis,
        sym hashed,
        chain_from_sound 1 x.seq x.entry_hash es (omega arith) (omega (arith, first)) rest,
      )

  linked_first :
      (x : VjrAuditEntry) (es : List VjrAuditEntry)
      → IsLinked h 0 genesis_prev_hash (map audit_entry (x ∷ es))
      → (x.seq ≡ 1) × (x.prev_hash ≡ genesis_prev_hash)
  unfolding IsLinked
  linked_first x es (numbered, linked, hashed, rest) = (omega (arith, numbered), linked)

  -- The audit log accepts the entries of a log that is not empty exactly when the verifier of
  -- reports, which shares no code with it, accepts them and the first entry has number 1 and the
  -- genesis hash.
  pub chain_check-verify_entries :
      (x : VjrAuditEntry) (es : List VjrAuditEntry)
      → ((r : ChainReport) × (verify_entries h (map audit_entry (x ∷ es)) ≡ ok r))
        ↔ ((chain_check h (x ∷ es) ≡ pass) × (x.seq ≡ 1) × (x.prev_hash ≡ genesis_prev_hash))
  chain_check-verify_entries x es = (
    λ (r, accepted).
        let linked = ((verify_entries_iff h _ r).0 accepted).0 in
        let (first, genesis) = linked_first x es linked in
        (segment-pass 0 genesis_prev_hash x es linked, first, genesis),
    λ (passed, first, genesis).
        let linked = from_genesis x es passed first genesis in
        (report_of h _, (verify_entries_iff h _ _).1 (linked, refl)),
  )
