-- ===== src/Audit/Chain/Log.antt =====
-- The table that `append` (chain.rs) writes to, as a chain of entries.
use vajra_forensics_platform.Prelude.{
  ℕ, suc, ◌+◌, ◌<◌, ◌^◌, ◌≡◌, refl, ap, ap₂, ◌∙◌, some, List, [], ◌∷◌, ◌++◌, String, u64, length,
  ok, arith,
}
use vajra_forensics_platform.Audit.Entry.{
  AuditEntry, HashablePayload, Hasher, genesis_prev_hash, new_entry,
}
use vajra_forensics_platform.Audit.Table.{AuditLogRecord, append_audit_log, get_latest_audit_entry}
use vajra_forensics_platform.Audit.Chain.{
  EntryJson, append, row_of, next_entry, load_entries, verify_db, event,
}
use vajra_forensics_platform.Audit.Chain.Sound.{
  IsLinked, head_hash, report_of, IsLinked-snoc, verify_entries_complete,
}

-- Every row holds an entry of the chain: its columns and its JSON agree.
pub data Stored (json : EntryJson) : ℕ → List AuditLogRecord → List AuditEntry → Type 0 where
  stored_nil : {i : ℕ} → Stored json i [] []
  stored_row :
      {i : ℕ} (row : AuditLogRecord) {rows : List AuditLogRecord} (e : AuditEntry)
      {es : List AuditEntry}
      → json.decode row.entry_json ≡ some e
      → row.seq ≡ u64 (i + 1)
      → row.entry_hash ≡ e.entry_hash
      → Stored json (i + 1) rows es
      → Stored json i (row ∷ rows) (e ∷ es)

module _ (h : Hasher) (json : EntryJson) where
  load_entries_lem :
      (i : ℕ) (rows : List AuditLogRecord) (es : List AuditEntry)
      → Stored json i rows es
      → load_entries h json rows ≡ ok es
  unfolding load_entries
  load_entries_lem i _ _ stored_nil = refl
  load_entries_lem i _ _ (stored_row row {rows} e {es} d s hash rest) =
      ground (arith, d, load_entries_lem (i + 1) rows es rest)

  pub length_lem :
      (i : ℕ) (rows : List AuditLogRecord) (es : List AuditEntry)
      → Stored json i rows es
      → length rows ≡ length es
  length_lem i _ _ stored_nil = refl
  length_lem i _ _ (stored_row row {rows} e {es} d s hash rest) =
      ap suc (length_lem (i + 1) rows es rest)

  -- The row of the next number goes to the end.
  append_audit_log_lem :
      (i : ℕ) (rows : List AuditLogRecord) (es : List AuditEntry) (row : AuditLogRecord)
      → Stored json i rows es
      → i + length rows + 1 < 2 ^ 63
      → row.seq ≡ i + length rows + 1
      → append_audit_log row rows ≡ some (rows ++ row ∷ [])
  unfolding append_audit_log
  append_audit_log_lem i _ _ row stored_nil small s = refl
  append_audit_log_lem i _ _ row (stored_row r {rows} e {es} d rs hash rest) small s =
      ground (arith, append_audit_log_lem (i + 1) rows es row rest)

  Stored-snoc :
      (i : ℕ) (rows : List AuditLogRecord) (es : List AuditEntry) (row : AuditLogRecord)
      (e : AuditEntry)
      → Stored json i rows es
      → json.decode row.entry_json ≡ some e
      → row.seq ≡ u64 (i + length rows + 1)
      → row.entry_hash ≡ e.entry_hash
      → Stored json i (rows ++ row ∷ []) (es ++ e ∷ [])
  Stored-snoc i _ _ row e stored_nil d s hash =
      stored_row row e d (s ∙ ap u64 (omega arith)) hash stored_nil
  Stored-snoc i _ _ row e (stored_row r {rows} f {es} fd fs fh rest) d s hash =
      stored_row r f fd fs fh
        (Stored-snoc (i + 1) rows es row e rest d (s ∙ ap u64 (omega arith)) hash)

  -- What the head of the table says: the number and the hash of the last entry.
  latest_lem :
      (i : ℕ) (prev : String) (r : AuditLogRecord) (rows : List AuditLogRecord)
      (es : List AuditEntry)
      → Stored json i (r ∷ rows) es
      → (last : AuditLogRecord) × (get_latest_audit_entry (r ∷ rows) ≡ some last)
        × (last.seq ≡ u64 (i + length rows + 1))
        × (last.entry_hash ≡ head_hash prev es)
  unfolding get_latest_audit_entry head_hash
  latest_lem i prev r [] _ (stored_row _ e {es} d s hash stored_nil) =
      (r, refl, s ∙ ap u64 (omega arith), hash)
  latest_lem i prev r (q ∷ rows) _ (stored_row _ e {es} d s hash rest) =
      let (last, found, last_seq, last_hash) = latest_lem (i + 1) e.entry_hash q rows es rest in
      (last, rw found, last_seq ∙ ap u64 (omega arith), last_hash)

-- A table that the check accepts: rows that agree with a chain of entries.
pub record IsLog (h : Hasher) (json : EntryJson) (rows : List AuditLogRecord) : Type 0 where
  pub entries : List AuditEntry
  pub stored : Stored json 0 rows entries
  pub linked : IsLinked h 0 genesis_prev_hash entries

-- The reader gives back what the writer wrote, and the writer does not fail.
pub record IsJson (json : EntryJson) : Type 0 where
  pub writes : (e : AuditEntry) → (text : String) × (json.encode e ≡ some text)
  pub reads :
      (e : AuditEntry) (text : String) → json.encode e ≡ some text → json.decode text ≡ some e

module _ (h : Hasher) (json : EntryJson) (io : IsJson json) where
  -- The next entry has the next number, and the hash of the head.
  next_entry_lem :
      (payload : ℕ → HashablePayload) (rows : List AuditLogRecord) (es : List AuditEntry)
      → Stored json 0 rows es
      → length rows + 1 < 2 ^ 63
      → next_entry h json payload rows
        ≡ new_entry h (payload (length rows + 1)) (head_hash genesis_prev_hash es)
  unfolding next_entry head_hash
  next_entry_lem payload [] _ stored_nil small = refl
  next_entry_lem payload (r ∷ rows) es stored small =
      let (last, found, last_seq, last_hash) =
        latest_lem h json 0 genesis_prev_hash r rows es stored in
      let number : u64 (last.seq + 1) ≡ suc (length rows) + 1 = omega arith in
      rw (next_entry, found) (ap₂ (λ n s. new_entry h (payload n) s) number last_hash)

  append-ok :
      (now case_id operator_id operation target result : String) (rows : List AuditLogRecord)
      (e : AuditEntry) (text : String) (table : List AuditLogRecord)
      → next_entry h json (event now case_id operator_id operation target result) rows ≡ e
      → json.encode e ≡ some text
      → append_audit_log (row_of e text) rows ≡ some table
      → append h json now case_id operator_id operation target result rows ≡ ok (e, table)
  unfolding append
  append-ok now case_id operator_id operation target result rows e text table made wrote inserted =
      ground (arith, made, wrote, inserted)

  -- To a table whose rows hold the number and the hash of the entries in them, and whose entries
  -- the check accepts, an append succeeds, with the next number and the given fields, and leaves
  -- such a table, with the new entry at the end; the database fails on a key that is taken and on
  -- nothing else, the JSON form is read back as it was written, and there are less than 2 ^ 63 -
  -- 1 entries.
  pub append-IsLog :
      (now case_id operator_id operation target result : String) (rows : List AuditLogRecord)
      (log : IsLog h json rows)
      → length rows + 1 < 2 ^ 63
      → (e : AuditEntry) × (table : List AuditLogRecord) × (append h json now case_id operator_id
            operation target result rows
          ≡ ok (e, table))
        × (e.payload ≡ event now case_id operator_id operation target result (length rows + 1))
        × (after : IsLog h json table) × (after.entries ≡ log.entries ++ e ∷ [])
  unfolding row_of new_entry
  append-IsLog now case_id operator_id operation target result rows log small =
      let payload = event now case_id operator_id operation target result in
      let prev = head_hash genesis_prev_hash log.entries in
      let e = new_entry h (payload (length rows + 1)) prev in
      let (text, wrote) = io.writes e in
      let n = length_lem h json 0 rows log.entries log.stored in
      let after : IsLog h json (rows ++ row_of e text ∷ []) = record {
        entries = log.entries ++ e ∷ [];
        stored =
            Stored-snoc h json 0 rows log.entries (row_of e text) e log.stored
              (io.reads e text wrote) (omega arith) refl;
        linked =
            IsLinked-snoc h 0 genesis_prev_hash log.entries e log.linked (omega arith) refl refl;
      } in
      (
        e,
        rows ++ row_of e text ∷ [],
        append-ok now case_id operator_id operation target result rows e text _
            (next_entry_lem payload rows log.entries log.stored small) wrote
            (append_audit_log_lem h json 0 rows log.entries (row_of e text) log.stored (omega arith)
              (omega arith)),
        refl,
        after,
        refl,
      )

  -- The check of the database accepts a log.
  pub verify_db-IsLog :
      (rows : List AuditLogRecord) (log : IsLog h json rows)
      → verify_db h json rows ≡ ok (report_of h log.entries)
  unfolding verify_db
  verify_db-IsLog rows log =
      rw (verify_db, load_entries_lem h json 0 rows log.entries log.stored)
        (verify_entries_complete h log.entries log.linked)
