-- ===== src/Custody/Examples.antt =====
-- An item that is seized and then transferred.
use vajra_forensics_platform.Prelude.{
  ℕ, inl, ◌≡◌, ◌≢◌, ◌↔◌, refl, true, Option, none, some, [], ◌∷◌, ◌++◌, String, ok, All, str_eq,
  if◌then◌else◌,
}
use text.Mathlib.Text.{is_lt}
use Prim.Native.String.{compare}
use vajra_forensics_platform.Custody.Events.{CustodyEvent, seized, transferred}
use vajra_forensics_platform.Custody.Store.{CaseDb, Sqlite, events_of}
use vajra_forensics_platform.Custody.Tracker.{validate_candidate_event, record_event, get_history}
use vajra_forensics_platform.Custody.Tracker.Rules.{
  IsCustodyChain, FollowsFrom, validate_candidate_event_iff,
}
use vajra_forensics_platform.Custody.Tracker.History.{
  AreDistinct, IsSqlite, UpdateIsHarmless, record_event-get_history,
}

abbrev seizure : CustodyEvent
seizure = record {
  event_id = "e1";
  evidence_id = "item";
  event_type = seized;
  from_party = none;
  to_party = some "officer";
  timestamp_utc = "2026-01-01T10:00:00Z";
  location = none;
  purpose = none;
  evidence_condition = none;
  signature_ref = none;
}

abbrev transfer : CustodyEvent
transfer = record {
  event_id = "e2";
  evidence_id = "item";
  event_type = transferred;
  from_party = some "officer";
  to_party = some "lab";
  timestamp_utc = "2026-01-02T10:00:00Z";
  location = some "bay 2";
  purpose = none;
  evidence_condition = none;
  signature_ref = none;
}

-- A reader that knows these two timestamps.
abbrev parse : String → Option ℕ
parse s =
    if str_eq s "2026-01-01T10:00:00Z"
    then some 1
    else if str_eq s "2026-01-02T10:00:00Z"
    then some 2
    else none

-- A database whose rows are inserted in order, and whose updates change no event.
abbrev sqlite : Sqlite
sqlite = record { execute_raw = λ sql store. store; order_by_timestamp = λ rows. rows }

abbrev before : CaseDb
before = record {
  custody_events =
      record {
        event_id = "e1";
        evidence_id = "item";
        event_type = "Seized";
        from_party = none;
        to_party = some "officer";
        timestamp_utc = "2026-01-01T10:00:00Z";
        location = none;
        purpose = none;
        evidence_condition = none;
        signature_ref = none;
      }
      ∷ [];
  evidence_items =
      record {
        evidence_id = "item";
        current_custody_owner = some "officer";
        current_location = none;
      }
      ∷ [];
}

abbrev after : CaseDb
after = record {
  custody_events =
      before.custody_events
      ++ record {
        event_id = "e2";
        evidence_id = "item";
        event_type = "Transferred";
        from_party = some "officer";
        to_party = some "lab";
        timestamp_utc = "2026-01-02T10:00:00Z";
        location = some "bay 2";
        purpose = none;
        evidence_condition = none;
        signature_ref = none;
      }
        ∷ [];
  evidence_items = before.evidence_items;
}

history_read : get_history sqlite before "item" ≡ ok (seizure ∷ [])
unfolding get_history
history_read = refl

history_chain : IsCustodyChain parse (seizure ∷ [])
unfolding IsCustodyChain FollowsFrom
history_chain = (inl refl, tt)

recorded : record_event parse sqlite before transfer ≡ ok after
unfolding record_event
recorded = refl

sqlite_sorts : IsSqlite sqlite
sqlite_sorts = record { insert_last = λ rows r differ late. refl }

update_harmless : UpdateIsHarmless sqlite transfer
unfolding UpdateIsHarmless
update_harmless = λ sql store made. refl

events_differ : AreDistinct (events_of "item" before.custody_events)
unfolding events_of
events_differ = (tt, tt)

transfer_is_late :
    All
      (λ q. is_lt (compare q.timestamp_utc "2026-01-02T10:00:00Z") ≡ true)
      (events_of "item" before.custody_events)
unfolding events_of
transfer_is_late = (refl, tt)

validate_candidate_event_iff_example :
    (validate_candidate_event parse (seizure ∷ []) transfer ≡ ok true)
    ↔ IsCustodyChain parse (seizure ∷ transfer ∷ [])
validate_candidate_event_iff_example =
    validate_candidate_event_iff parse (seizure ∷ []) transfer history_chain

record_event-get_history_example :
    (get_history sqlite after "item" ≡ ok (seizure ∷ transfer ∷ []))
    × IsCustodyChain parse (seizure ∷ transfer ∷ [])
    × ((id : String) → "item" ≢ id → get_history sqlite after id ≡ get_history sqlite before id)
record_event-get_history_example =
    record_event-get_history parse sqlite before after transfer (seizure ∷ []) sqlite_sorts
      update_harmless events_differ transfer_is_late history_read history_chain recorded
