-- ===== src/Audit/Chain/Runs.antt =====
-- The logs that calls of `append` (chain.rs) build from an empty table, in any number.
use vajra_forensics_platform.Prelude.{
  ℕ, ◌+◌, ◌<◌, ◌^◌, ◌≡◌, refl, ap, sym, subst, ◌∙◌, List, [], ◌∷◌, String, length, length-append,
  ok, ok_injective, arith,
}
use vajra_forensics_platform.Audit.Entry.{AuditEntry, Hasher}
use vajra_forensics_platform.Audit.Table.{AuditLogRecord}
use vajra_forensics_platform.Audit.Chain.{ChainReport, EntryJson, append, verify_db}
use vajra_forensics_platform.Audit.Chain.Sound.{IsLinked, report_of, report_of-length}
use vajra_forensics_platform.Audit.Chain.Log.{
  IsLog, IsJson, stored_nil, length_lem, append-IsLog, verify_db-IsLog,
}

-- The tables after a number of appends.
pub data Run (h : Hasher) (json : EntryJson) : ℕ → List AuditLogRecord → Type 0 where
  run_empty : Run h json 0 []
  run_append :
      {n : ℕ} {rows : List AuditLogRecord} (before : Run h json n rows)
      (now case_id operator_id operation target result : String) (e : AuditEntry)
      (table : List AuditLogRecord)
      → append h json now case_id operator_id operation target result rows ≡ ok (e, table)
      → Run h json (n + 1) table

module _ (h : Hasher) (json : EntryJson) (io : IsJson json) where
  Run-IsLog :
      (n : ℕ) (rows : List AuditLogRecord)
      → Run h json n rows
      → n < 2 ^ 63
      → (log : IsLog h json rows) × (length log.entries ≡ n)
  unfolding IsLinked
  Run-IsLog _ _ run_empty small = (record { entries = []; stored = stored_nil; linked = tt }, refl)
  Run-IsLog _ _ (run_append {n} {rows} before now c o op t r e table done) small =
      let (log, count) = Run-IsLog n rows before (omega arith) in
      let fits : length rows + 1 < 2 ^ 63 =
        let m = length_lem h json 0 rows log.entries log.stored in omega arith in
      let (f, next, did, said, after, ends) = append-IsLog h json io now c o op t r rows log fits in
      let same : next ≡ table = ap (λ p. p.1) (ok_injective (sym did ∙ done)) in
      let longer = ap length ends ∙ length-append log.entries (f ∷ []) in
      subst (λ t. (log : IsLog h json t) × (length log.entries ≡ n + 1)) same
        (after, longer ∙ ap (λ m. m + 1) count)

  -- Every table that appends build from an empty one, fewer than 2 ^ 63 of them and on a JSON
  -- form that is read back as it was written, passes the check of the database, which counts them
  -- all.
  pub Run-verify_db :
      (n : ℕ) (rows : List AuditLogRecord)
      → Run h json n rows
      → n < 2 ^ 63
      → (report : ChainReport) × (verify_db h json rows ≡ ok report) × (report.total_entries ≡ n)
  Run-verify_db n rows run small =
      let (log, count) = Run-IsLog n rows run small in
      (
        report_of h log.entries,
        verify_db-IsLog h json io rows log,
        report_of-length h log.entries ∙ count,
      )
