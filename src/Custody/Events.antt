-- ===== src/Custody/Events.antt =====
-- crates/vajra-custody/src/events.rs.
use vajra_forensics_platform.Prelude.{
  ◌≡◌, refl, Bool, true, false, Option, none, some, String, str_eq, if◌then◌else◌,
}

pub data CustodyEventType : Type 0 where
  seized : CustodyEventType
  received : CustodyEventType
  storage_change : CustodyEventType
  transferred : CustodyEventType
  write_blocker_attached : CustodyEventType
  analysis_started : CustodyEventType
  analysis_completed : CustodyEventType
  working_copy_created : CustodyEventType
  returned : CustodyEventType
  disposed : CustodyEventType

unfoldable pub as_str : CustodyEventType → String
as_str seized = "Seized"
as_str received = "Received"
as_str storage_change = "StorageChange"
as_str transferred = "Transferred"
as_str write_blocker_attached = "WriteBlockerAttached"
as_str analysis_started = "AnalysisStarted"
as_str analysis_completed = "AnalysisCompleted"
as_str working_copy_created = "WorkingCopyCreated"
as_str returned = "Returned"
as_str disposed = "Disposed"

unfoldable pub is_terminal : CustodyEventType → Bool
is_terminal returned = true
is_terminal disposed = true
is_terminal _ = false

-- `none` is the error, which only formats the text.
unfoldable pub from_str : String → Option CustodyEventType
from_str s =
    if str_eq s "Seized"
    then some seized
    else if str_eq s "Received"
    then some received
    else if str_eq s "StorageChange"
    then some storage_change
    else if str_eq s "Transferred"
    then some transferred
    else if str_eq s "WriteBlockerAttached"
    then some write_blocker_attached
    else if str_eq s "AnalysisStarted"
    then some analysis_started
    else if str_eq s "AnalysisCompleted"
    then some analysis_completed
    else if str_eq s "WorkingCopyCreated"
    then some working_copy_created
    else if str_eq s "Returned"
    then some returned
    else if str_eq s "Disposed"
    then some disposed
    else none

pub record CustodyEvent : Type 0 where
  pub event_id : String
  pub evidence_id : String
  pub event_type : CustodyEventType
  pub from_party : Option String
  pub to_party : Option String
  pub timestamp_utc : String
  pub location : Option String
  pub purpose : Option String
  pub evidence_condition : Option String
  pub signature_ref : Option String

-- Every event type is read back from its name.
pub from_str-as_str : (t : CustodyEventType) → from_str (as_str t) ≡ some t
unfolding from_str as_str
from_str-as_str seized = refl
from_str-as_str received = refl
from_str-as_str storage_change = refl
from_str-as_str transferred = refl
from_str-as_str write_blocker_attached = refl
from_str-as_str analysis_started = refl
from_str-as_str analysis_completed = refl
from_str-as_str working_copy_created = refl
from_str-as_str returned = refl
from_str-as_str disposed = refl
