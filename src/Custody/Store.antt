-- ===== src/Custody/Store.antt =====
-- The tables of crates/vajra-case-db (models.rs, db.rs) that custody tracking uses. SQLite is a
-- parameter where it runs raw SQL and where it sorts; rows stand in the order of their insertion.
use vajra_forensics_platform.Prelude.{
  Bool, false, not, ◌||◌, Option, none, some, List, [], ◌∷◌, ◌++◌, String, str_eq, if◌then◌else◌,
}

pub record CustodyEventRecord : Type 0 where
  pub event_id : String
  pub evidence_id : String
  pub event_type : String
  pub from_party : Option String
  pub to_party : Option String
  pub timestamp_utc : String
  pub location : Option String
  pub purpose : Option String
  pub evidence_condition : Option String
  pub signature_ref : Option String

pub record EvidenceItem : Type 0 where
  pub evidence_id : String
  pub current_custody_owner : Option String
  pub current_location : Option String

pub record CaseDb : Type 0 where
  pub custody_events : List CustodyEventRecord
  pub evidence_items : List EvidenceItem

-- SQLite: what a batch leaves, failed or not, and `ORDER BY timestamp_utc ASC`.
pub record Sqlite : Type 0 where
  pub execute_raw : String → CaseDb → CaseDb
  pub order_by_timestamp : List CustodyEventRecord → List CustodyEventRecord

unfoldable pub has_event : String → List CustodyEventRecord → Bool
has_event id [] = false
has_event id (r ∷ rs) = str_eq r.event_id id || has_event id rs

unfoldable pub has_evidence : String → List EvidenceItem → Bool
has_evidence id [] = false
has_evidence id (i ∷ is) = str_eq i.evidence_id id || has_evidence id is

abbrev pub with_event : CustodyEventRecord → CaseDb → CaseDb
with_event r store = record {
  custody_events = store.custody_events ++ r ∷ [];
  evidence_items = store.evidence_items;
}

-- `INSERT INTO custody_events`: `none` is a violation of the primary key or of the reference.
unfoldable pub record_custody_event : CustodyEventRecord → CaseDb → Option CaseDb
unfolding has_event has_evidence
record_custody_event r store =
    if has_event r.event_id store.custody_events
    then none
    else if not (has_evidence r.evidence_id store.evidence_items)
    then none
    else some (with_event r store)

-- `WHERE evidence_id = ?1`.
unfoldable pub events_of : String → List CustodyEventRecord → List CustodyEventRecord
events_of id [] = []
events_of id (r ∷ rs) =
    let rest = events_of id rs in if str_eq r.evidence_id id then r ∷ rest else rest

unfoldable pub list_custody_events_for_evidence : Sqlite → String → CaseDb → List CustodyEventRecord
unfolding events_of
list_custody_events_for_evidence sqlite id store =
    sqlite.order_by_timestamp (events_of id store.custody_events)
