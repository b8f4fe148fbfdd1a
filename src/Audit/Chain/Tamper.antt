-- ===== src/Audit/Chain/Tamper.antt =====
-- Tamper evidence of the chain of chain.rs: what the head hash says about the entries before it.
use vajra_forensics_platform.Prelude.{
  ℕ, ◌+◌, ◌≡◌, refl, ap, ap₂, sym, ◌∙◌, List, [], ◌∷◌, String, length, ok, arith,
}
use text.Mathlib.TextLemmas.{append_assoc, append_cancel_left}
use Prim.Native.String.{◌++◌ as append}
use vajra_forensics_platform.Audit.Entry.{
  AuditEntry, Hasher, HashablePayload, genesis_prev_hash, calculate_hash,
}
use vajra_forensics_platform.Audit.Chain.{verify_entries, ChainReport}
use vajra_forensics_platform.Audit.Chain.Sound.{
  IsLinked, head_hash, verify_entries_iff, report_of-length, report_of-head,
}

-- What the chain relies on: SHA-256 has no collisions, and a JSON object ends where its braces close.
pub record IsBinding (h : Hasher) : Type 0 where
  pub no_collision : (s t : String) → h.sha256_hex s ≡ h.sha256_hex t → s ≡ t
  pub self_delimiting :
      (p q : HashablePayload) (s t : String)
      → append (h.to_json p) s ≡ append (h.to_json q) t
      → (p ≡ q) × (s ≡ t)

entry_path :
    (e f : AuditEntry)
    → e.payload ≡ f.payload
    → e.prev_hash ≡ f.prev_hash
    → e.entry_hash ≡ f.entry_hash
    → e ≡ f
entry_path e f p q r =
    ap₂
      (λ (payload : HashablePayload) (hashes : String × String).
        let out : AuditEntry = record {
          payload = payload;
          prev_hash = hashes.0;
          entry_hash = hashes.1;
        } in
        out)
      p (ap₂ (λ s t. (s, t)) q r)

module _ (h : Hasher) (binding : IsBinding h) where
  -- The hash of an entry determines its payload and the hash that it points back to.
  pub calculate_hash_injective :
      (p q : HashablePayload) (s t : String)
      → calculate_hash h p s ≡ calculate_hash h q t
      → (p ≡ q) × (s ≡ t)
  unfolding calculate_hash
  calculate_hash_injective p q s t eq =
      let texts = binding.no_collision _ _ eq in
      let regrouped =
        sym (append_assoc (h.to_json p) "||" s) ∙ texts ∙ append_assoc (h.to_json q) "||" t in
      let (payloads, rests) =
        binding.self_delimiting p q (append "||" s) (append "||" t) regrouped in
      (payloads, append_cancel_left "||" s t rests)

  -- Two chains of one length with one head hash are the same entries on the same hash.
  pub IsLinked-unique :
      (i j : ℕ) (s t : String) (es fs : List AuditEntry)
      → IsLinked h i s es
      → IsLinked h j t fs
      → length es ≡ length fs
      → head_hash s es ≡ head_hash t fs
      → (es ≡ fs) × (s ≡ t)
  unfolding IsLinked head_hash
  IsLinked-unique i j s t [] [] l k n head = (refl, head)
  IsLinked-unique i j s t [] (f ∷ fs) l k n head = absurd (omega arith)
  IsLinked-unique i j s t (e ∷ es) [] l k n head = absurd (omega arith)
  IsLinked-unique i j s t (e ∷ es) (f ∷ fs) (es_seq, ep, eh, l) (fs_seq, fp, fh, k) n head =
      let (rests, hashes) =
        IsLinked-unique (i + 1) (j + 1) e.entry_hash f.entry_hash es fs l k (omega arith) head in
      let (payloads, links) =
        calculate_hash_injective e.payload f.payload e.prev_hash f.prev_hash
          (sym eh ∙ hashes ∙ fh) in
      (ap₂ (λ x xs. x ∷ xs) (entry_path e f payloads links hashes) rests, sym ep ∙ links ∙ fp)

  -- Tamper evidence: when SHA-256 has no collisions and a JSON object ends where its braces
  -- close, two logs on which the check gives the same report are the same log.
  pub verify_entries_injective :
      (es fs : List AuditEntry) (r : ChainReport)
      → verify_entries h es ≡ ok r
      → verify_entries h fs ≡ ok r
      → es ≡ fs
  verify_entries_injective es fs r eq₁ eq₂ =
      let (l, made₁) = (verify_entries_iff h es r).0 eq₁ in
      let (k, made₂) = (verify_entries_iff h fs r).0 eq₂ in
      let same = made₁ ∙ sym made₂ in
      let n =
        sym (report_of-length h es) ∙ ap (λ x. x.total_entries) same ∙ report_of-length h fs in
      let head = sym (report_of-head h es) ∙ ap (λ x. x.latest_hash) same ∙ report_of-head h fs in
      (IsLinked-unique 0 0 genesis_prev_hash genesis_prev_hash es fs l k n head).0
