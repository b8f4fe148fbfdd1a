-- ===== src/Audit/Table.antt =====
-- The audit log table of crates/vajra-case-db/src/db.rs: rows in the order of the primary key `seq`,
-- which is stored as a signed 64-bit integer. Failures of the database other than that of the key
-- are left out.
use vajra_forensics_platform.Prelude.{
  ℕ, ◌+◌, ◌^◌, Option, none, some, List, [], ◌∷◌, String, u64, ltb, ◌==◌, if◌then◌else◌,
}

pub record AuditLogRecord : Type 0 where
  pub seq : ℕ
  pub entry_json : String
  pub entry_hash : String
  pub prev_hash : String

-- The order of `seq as i64`, as an order of natural numbers.
abbrev pub key_order : ℕ → ℕ
key_order seq = u64 (seq + 2 ^ 63)

-- `INSERT INTO audit_log`: `none` is the violation of the primary key.
unfoldable pub append_audit_log :
    AuditLogRecord → List AuditLogRecord → Option (List AuditLogRecord)
append_audit_log row [] = some (row ∷ [])
append_audit_log row (r ∷ rows) =
    let rest = append_audit_log row rows in
    if key_order row.seq == key_order r.seq
    then none
    else if ltb (key_order row.seq) (key_order r.seq)
    then some (row ∷ r ∷ rows)
    else elim rest [ none ↦ none | some out ↦ some (r ∷ out) ]

-- `ORDER BY seq DESC LIMIT 1`.
unfoldable pub get_latest_audit_entry : List AuditLogRecord → Option AuditLogRecord
get_latest_audit_entry [] = none
get_latest_audit_entry (r ∷ rows) = elim (get_latest_audit_entry rows) [
  | none ↦ some r
  | some last ↦ some last
]
