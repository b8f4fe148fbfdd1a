-- ===== src/Custody/Tracker/History.antt =====
-- What recording an event (tracker.rs) does to the histories that the database answers.
use vajra_forensics_platform.Prelude.{
  ℕ, ◌≡◌, ◌≢◌, refl, ap, sym, subst, ◌∙◌, true, Option, some, inl, inr, Option-cases, Bool-cases,
  List, [], ◌∷◌, ◌++◌, String, eq_iff, All, ok, ◌>>=◌, bind-ok, ok_injective, arith,
}
use text.Mathlib.Text.{is_lt}
use Prim.Native.String.{compare}
use vajra_forensics_platform.Custody.Events.{CustodyEvent, from_str-as_str}
use vajra_forensics_platform.Custody.Store.{
  CustodyEventRecord, CaseDb, Sqlite, has_event, has_evidence, with_event, record_custody_event,
  events_of, list_custody_events_for_evidence,
}
use vajra_forensics_platform.Custody.Tracker.{
  validate_candidate_event, record_of, event_of, events_from, get_history, update_sql, record_event,
  write_event,
}
use vajra_forensics_platform.Custody.Tracker.Rules.{
  IsCustodyChain, validate_candidate_event_iff, validate_candidate_event-true,
}

event_of-record_of : (id : String) (e : CustodyEvent) → event_of id (record_of e) ≡ ok e
unfolding event_of record_of
event_of-record_of id e = rw (event_of, from_str-as_str e.event_type) refl

events_from-cons :
    (id : String) (r : CustodyEventRecord) (rs : List CustodyEventRecord) (f : CustodyEvent)
    (fs : List CustodyEvent)
    → event_of id r ≡ ok f
    → events_from id rs ≡ ok fs
    → events_from id (r ∷ rs) ≡ ok (f ∷ fs)
unfolding events_from
events_from-cons id r rs f fs read rest =
    ap (λ x. x >>= λ e. events_from id rs >>= λ es. ok (e ∷ es)) read
    ∙ ap (λ x. x >>= λ es. ok (f ∷ es)) rest

events_from-uncons :
    (id : String) (r : CustodyEventRecord) (rs : List CustodyEventRecord) (es : List CustodyEvent)
    → events_from id (r ∷ rs) ≡ ok es
    → (f : CustodyEvent) × (fs : List CustodyEvent) × (event_of id r ≡ ok f)
      × (events_from id rs ≡ ok fs)
      × (f ∷ fs ≡ es)
unfolding events_from
events_from-uncons id r rs es h =
    let (f, read, more) = bind-ok (event_of id r) _ es h in
    let (fs, rest, all) = bind-ok (events_from id rs) _ es more in
    (f, fs, read, rest, ok_injective all)

events_from-nil : (id : String) → events_from id [] ≡ ok []
unfolding events_from
events_from-nil id = refl

events_from-snoc :
    (id : String) (rs : List CustodyEventRecord) (es : List CustodyEvent) (e : CustodyEvent)
    → events_from id rs ≡ ok es
    → events_from id (rs ++ record_of e ∷ []) ≡ ok (es ++ e ∷ [])
events_from-snoc id [] es e h =
    events_from-cons id (record_of e) [] e [] (event_of-record_of id e) (events_from-nil id)
    ∙ ap (λ xs. ok (xs ++ e ∷ [])) (ok_injective (sym (events_from-nil id) ∙ h))
events_from-snoc id (r ∷ rs) es e h =
    let (f, fs, read, rest, all) = events_from-uncons id r rs es h in
    events_from-cons id r (rs ++ record_of e ∷ []) f (fs ++ e ∷ []) read
      (events_from-snoc id rs fs e rest)
    ∙ ap (λ xs. ok (xs ++ e ∷ [])) all

events_of-snoc_own :
    (id : String) (rs : List CustodyEventRecord) (r : CustodyEventRecord)
    → r.evidence_id ≡ id
    → events_of id (rs ++ r ∷ []) ≡ events_of id rs ++ r ∷ []
unfolding events_of
events_of-snoc_own id [] r own = ground (arith, eq_iff r.evidence_id id, own)
events_of-snoc_own id (q ∷ rs) r own = ground (arith, events_of-snoc_own id rs r own)

events_of-snoc_other :
    (id : String) (rs : List CustodyEventRecord) (r : CustodyEventRecord)
    → r.evidence_id ≢ id
    → events_of id (rs ++ r ∷ []) ≡ events_of id rs
unfolding events_of
events_of-snoc_other id [] r other = ground (arith, eq_iff r.evidence_id id, other)
events_of-snoc_other id (q ∷ rs) r other = ground (arith, events_of-snoc_other id rs r other)

-- The timestamps of rows differ. The order of rows with one timestamp is undefined.
abbrev pub AreDistinct : List CustodyEventRecord → Type 0
AreDistinct [] = Unit
AreDistinct (q ∷ rows) = All (λ r. q.timestamp_utc ≢ r.timestamp_utc) rows × AreDistinct rows

-- The documented behaviour of SQLite that the tracker relies on: among rows whose timestamps differ,
-- `ORDER BY` puts the row last whose timestamp is after that of every other row.
pub record IsSqlite (sqlite : Sqlite) : Type 0 where
  pub insert_last :
      (rows : List CustodyEventRecord) (r : CustodyEventRecord)
      → AreDistinct rows
      → All (λ q. is_lt (compare q.timestamp_utc r.timestamp_utc) ≡ true) rows
      → sqlite.order_by_timestamp (rows ++ r ∷ []) ≡ sqlite.order_by_timestamp rows ++ r ∷ []

-- The update of an event leaves the event table alone, as it does when no text holds a quote.
unfoldable pub UpdateIsHarmless : Sqlite → CustodyEvent → Type 0
UpdateIsHarmless sqlite e =
    (sql : String) (store : CaseDb)
    → update_sql e ≡ some sql
    → (sqlite.execute_raw sql store).custody_events ≡ store.custody_events

record_custody_event-some :
    (r : CustodyEventRecord) (store out : CaseDb)
    → record_custody_event r store ≡ some out
    → out ≡ with_event r store
unfolding record_custody_event
record_custody_event-some r store out h =
    elim (Bool-cases (has_event r.event_id store.custody_events)) [
      | inl t ↦ absurd (ground (arith, h, t))
      | inr t ↦ elim (Bool-cases (has_evidence r.evidence_id store.evidence_items)) [
        | inl u ↦ ground (arith, h, t, u)
        | inr u ↦ absurd (ground (arith, h, t, u))
      ]
    ]

write_event-rows :
    (sqlite : Sqlite) (store out : CaseDb) (e : CustodyEvent)
    → UpdateIsHarmless sqlite e
    → write_event sqlite store e ≡ ok out
    → out.custody_events ≡ store.custody_events ++ record_of e ∷ []
unfolding write_event UpdateIsHarmless
write_event-rows sqlite store out e harmless done =
    elim (Option-cases (record_custody_event (record_of e) store)) [
      | inl unwritten ↦ absurd (ground (arith, done, unwritten))
      | inr (written, w) ↦
          let table : CaseDb → List CustodyEventRecord = λ s. s.custody_events in
          let rows = ap table (record_custody_event-some (record_of e) store written w) in
          elim (Option-cases (update_sql e)) [
            | inl u ↦ let same : out ≡ written = ground (arith, done, w, u) in ap table same ∙ rows
            | inr (sql, u) ↦
                let same : out ≡ sqlite.execute_raw sql written = ground (arith, done, w, u) in
                ap table same ∙ harmless sql written u ∙ rows
          ]
    ]

-- What `record_event` leaves in the event table.
record_event-rows :
    (parse : String → Option ℕ) (sqlite : Sqlite) (store out : CaseDb) (e : CustodyEvent)
    (history : List CustodyEvent)
    → UpdateIsHarmless sqlite e
    → get_history sqlite store e.evidence_id ≡ ok history
    → record_event parse sqlite store e ≡ ok out
    → (validate_candidate_event parse history e ≡ ok true)
      × (out.custody_events ≡ store.custody_events ++ record_of e ∷ [])
unfolding record_event
record_event-rows parse sqlite store out e history harmless read done =
    let (h, again, more) = bind-ok (get_history sqlite store e.evidence_id) _ out done in
    let (b, valid, wrote) = bind-ok (validate_candidate_event parse h e) _ out more in
    let same : h ≡ history = ok_injective (sym again ∙ read) in
    (
      subst (λ x. validate_candidate_event parse x e ≡ ok true) same
          (validate_candidate_event-true parse h e b valid),
      write_event-rows sqlite store out e harmless wrote,
    )

-- Recording an event that succeeds extends the history of its item by that event, and the result
-- is again a chain of custody, when the timestamps of the item differ and the new one comes after
-- them in the order of texts, SQLite sorts such a row last, and the update of the item leaves the
-- event table alone; the histories of other items stay as they are.
pub record_event-get_history :
    (parse : String → Option ℕ) (sqlite : Sqlite) (store out : CaseDb) (e : CustodyEvent)
    (history : List CustodyEvent)
    → IsSqlite sqlite
    → UpdateIsHarmless sqlite e
    → AreDistinct (events_of e.evidence_id store.custody_events)
    → All
        (λ q. is_lt (compare q.timestamp_utc e.timestamp_utc) ≡ true)
        (events_of e.evidence_id store.custody_events)
    → get_history sqlite store e.evidence_id ≡ ok history
    → IsCustodyChain parse history
    → record_event parse sqlite store e ≡ ok out
    → (get_history sqlite out e.evidence_id ≡ ok (history ++ e ∷ []))
      × IsCustodyChain parse (history ++ e ∷ [])
      × ((id : String)
          → e.evidence_id ≢ id
          → get_history sqlite out id ≡ get_history sqlite store id)
unfolding get_history list_custody_events_for_evidence record_of
record_event-get_history parse sqlite store out e history lite harmless differ late read chain
      done =
    let (valid, rows) = record_event-rows parse sqlite store out e history harmless read done in
    let own = events_of-snoc_own e.evidence_id store.custody_events (record_of e) refl in
    let sorted =
      lite.insert_last (events_of e.evidence_id store.custody_events) (record_of e) differ late in
    (
      ap (λ rs. events_from e.evidence_id (sqlite.order_by_timestamp (events_of e.evidence_id rs)))
            rows
          ∙ ap (λ rs. events_from e.evidence_id (sqlite.order_by_timestamp rs)) own
          ∙ ap (events_from e.evidence_id) sorted
          ∙ events_from-snoc e.evidence_id
              (list_custody_events_for_evidence sqlite e.evidence_id store) history e read,
      (validate_candidate_event_iff parse history e chain).0 valid,
      λ id other.
          ap (λ rs. events_from id (sqlite.order_by_timestamp (events_of id rs))) rows
          ∙ ap (λ rs. events_from id (sqlite.order_by_timestamp rs))
              (events_of-snoc_other id store.custody_events (record_of e) other),
    )
