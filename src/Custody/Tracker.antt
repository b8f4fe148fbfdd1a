-- ===== src/Custody/Tracker.antt =====
-- crates/vajra-custody/src/tracker.rs: recording a custody event, and the history of an item. The
-- reading of RFC 3339 timestamps is a parameter: the instant that a text stands for. The table that
-- `format_history_report` prints is left out.
pub mod Rules
pub mod History
use vajra_forensics_platform.Prelude.{
  ℕ, Bool, true, false, not, ◌||◌, ◌&&◌, Option, none, some, List, [], ◌∷◌, ◌++◌, String,
  append_text, ltb, if◌then◌else◌, Result, ok, err, ◌>>=◌,
}
use vajra_forensics_platform.Custody.Events.{
  CustodyEventType, seized, received, transferred, as_str, is_terminal, from_str, CustodyEvent,
}
use vajra_forensics_platform.Custody.Store.{
  CustodyEventRecord, CaseDb, Sqlite, record_custody_event, list_custody_events_for_evidence,
}

-- The errors that the tracker returns; the other two of the source are never built.
pub data CustodyError : Type 0 where
  invalid_initial_event : String → String → CustodyError
  missing_transfer_parties : CustodyError
  event_after_terminal_state : String → String → CustodyError
  non_monotonic_timestamp : String → String → CustodyError
  db : CustodyError

abbrev pub is_none {ℓ} : {A : Type ℓ} → Option A → Bool
is_none none = true
is_none (some a) = false

unfoldable pub is_initial : CustodyEventType → Bool
is_initial seized = true
is_initial received = true
is_initial _ = false

unfoldable pub is_transfer : CustodyEventType → Bool
is_transfer transferred = true
is_transfer _ = false

-- `history.last()` of the events from `e` on.
pub last_event : CustodyEvent → List CustodyEvent → CustodyEvent
last_event e [] = e
last_event e (f ∷ fs) = last_event f fs

module _ (parse_from_rfc3339 : String → Option ℕ) where
  -- Rule 4: true when both timestamps parse and the second is the earlier one.
  pub goes_back : String → String → Bool
  goes_back previous current = elim (parse_from_rfc3339 previous) [
    | none ↦ false
    | some t_prev ↦ elim (parse_from_rfc3339 current) [
      | none ↦ false
      | some t_cand ↦ ltb t_cand t_prev
    ]
  ]

  pub validate_after : CustodyEvent → CustodyEvent → Result CustodyError Bool
  unfolding is_terminal is_transfer goes_back as_str
  validate_after last candidate =
      if is_terminal last.event_type
      then err (event_after_terminal_state (as_str candidate.event_type) (as_str last.event_type))
      else if is_transfer candidate.event_type
          && (is_none candidate.from_party || is_none candidate.to_party)
      then err missing_transfer_parties
      else if goes_back last.timestamp_utc candidate.timestamp_utc
      then err (non_monotonic_timestamp last.timestamp_utc candidate.timestamp_utc)
      else ok true

  pub validate_candidate_event : List CustodyEvent → CustodyEvent → Result CustodyError Bool
  unfolding is_initial validate_after last_event as_str
  validate_candidate_event [] candidate =
      if not (is_initial candidate.event_type)
      then err (invalid_initial_event candidate.evidence_id (as_str candidate.event_type))
      else ok true
  validate_candidate_event (e ∷ es) candidate = validate_after (last_event e es) candidate

-- The row of an event, and the event of a row, whose type may not parse.
pub record_of : CustodyEvent → CustodyEventRecord
unfolding as_str
record_of e = record {
  event_id = e.event_id;
  evidence_id = e.evidence_id;
  event_type = as_str e.event_type;
  from_party = e.from_party;
  to_party = e.to_party;
  timestamp_utc = e.timestamp_utc;
  location = e.location;
  purpose = e.purpose;
  evidence_condition = e.evidence_condition;
  signature_ref = e.signature_ref;
}

pub event_of : String → CustodyEventRecord → Result CustodyError CustodyEvent
unfolding from_str
event_of evidence_id r = elim (from_str r.event_type) [
  | none ↦ err (invalid_initial_event evidence_id r.event_type)
  | some t ↦ ok (record {
    event_id = r.event_id;
    evidence_id = r.evidence_id;
    event_type = t;
    from_party = r.from_party;
    to_party = r.to_party;
    timestamp_utc = r.timestamp_utc;
    location = r.location;
    purpose = r.purpose;
    evidence_condition = r.evidence_condition;
    signature_ref = r.signature_ref;
  })
]

pub events_from : String → List CustodyEventRecord → Result CustodyError (List CustodyEvent)
unfolding event_of
events_from evidence_id [] = ok []
events_from evidence_id (r ∷ rs) = do
  e ← event_of evidence_id r
  es ← events_from evidence_id rs
  ok (e ∷ es)

unfoldable pub get_history : Sqlite → CaseDb → String → Result CustodyError (List CustodyEvent)
unfolding events_from list_custody_events_for_evidence
get_history sqlite store evidence_id =
    events_from evidence_id (list_custody_events_for_evidence sqlite evidence_id store)

-- `to_party`, or else `from_party`.
pub new_owner : CustodyEvent → Option String
new_owner e = elim e.to_party [ none ↦ e.from_party | some s ↦ some s ]

-- The batch that updates the evidence item, unless there is nothing to set; its texts are put
-- between quotes as they are.
pub update_sql : CustodyEvent → Option String
unfolding new_owner
update_sql e =
    let owner_part = λ (s : String). append_text "current_custody_owner = '" (append_text s "'") in
    let loc_part = λ (s : String). append_text "current_location = '" (append_text s "'") in
    let update = λ (parts : String).
      append_text "UPDATE evidence_items SET " (
        append_text parts
          (append_text " WHERE evidence_id = '" (append_text e.evidence_id "';"))) in
    elim (new_owner e) [
      | none ↦ elim e.location [ none ↦ none | some loc ↦ some (update (loc_part loc)) ]
      | some owner ↦ elim e.location [
        | none ↦ some (update (owner_part owner))
        | some loc ↦
            some (update (append_text (owner_part owner) (append_text ", " (loc_part loc))))
      ]
    ]

-- The insert, and the update of the evidence item.
pub write_event : Sqlite → CaseDb → CustodyEvent → Result CustodyError CaseDb
unfolding record_custody_event record_of update_sql
write_event sqlite store event = elim (record_custody_event (record_of event) store) [
  | none ↦ err db
  | some written ↦ elim (update_sql event) [
    | none ↦ ok written
    | some sql ↦ ok (sqlite.execute_raw sql written)
  ]
]

unfoldable pub record_event :
    (String → Option ℕ) → Sqlite → CaseDb → CustodyEvent → Result CustodyError CaseDb
unfolding get_history validate_candidate_event write_event
record_event parse sqlite store event = do
  history ← get_history sqlite store event.evidence_id
  valid ← validate_candidate_event parse history event
  write_event sqlite store event
