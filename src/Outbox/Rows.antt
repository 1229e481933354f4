-- ===== src/Outbox/Rows.antt =====
-- internal/outbox/adapters/postgres/repository.go and `RehydrateEvent` of internal/outbox/domain:
-- the columns of an event as they cross the driver, and what the scan makes of them.
pub mod Agree
use banking_plateform.Base.{ℕ, ◌≡◌, refl, Str, text, str_eq, if◌then◌else◌, Option, none, some}
use banking_plateform.Outbox.Event.{Event, Status, pending, published, failed}
use banking_plateform.Shared.Json.{Json}

unfoldable pub event_status_text : Status → Str
event_status_text pending = text "PENDING"
event_status_text published = text "PUBLISHED"
event_status_text failed = text "FAILED"

-- `domain.Status(status)`; the table's CHECK allows no other text.
unfoldable pub event_status_of : Str → Option Status
event_status_of s =
    if str_eq s (text "PENDING")
    then some pending
    else if str_eq s (text "PUBLISHED")
    then some published
    else if str_eq s (text "FAILED")
    then some failed
    else none

-- A row of outbox_events; `none` is NULL.
pub record EventRow : Type 0 where
  pub id : Str
  pub aggregate_type : Str
  pub aggregate_id : Str
  pub event_type : Str
  pub payload : Json
  pub status : Str
  pub created_at : ℕ
  pub published_at : Option ℕ

-- The arguments of the INSERT of `InsertInTx`, with the column that it leaves NULL.
unfoldable pub event_row : Event → EventRow
event_row event = record {
  id = event.id;
  aggregate_type = event.aggregate_type;
  aggregate_id = event.aggregate_id;
  event_type = event.event_type;
  payload = event.payload;
  status = event_status_text pending;
  created_at = event.created_at;
  published_at = none;
}

-- The SET of `markPublishedInTx` and of `markFailedInTx`.
unfoldable pub publish_row : ℕ → EventRow → EventRow
publish_row now row = record row { status = event_status_text published; published_at = some now }

unfoldable pub fail_row : EventRow → EventRow
fail_row row = record row { status = event_status_text failed }

-- `RehydrateEvent`
unfoldable pub rehydrate_event : Str → Str → Str → Str → Json → Status → ℕ → ℕ → Event
rehydrate_event id aggregate_type aggregate_id event_type payload status created_at published_at =
    record {
      id = id;
      aggregate_type = aggregate_type;
      aggregate_id = aggregate_id;
      event_type = event_type;
      payload = payload;
      status = status;
      created_at = created_at;
      published_at = published_at;
    }

-- `if publishedAt != nil { published = *publishedAt }`
abbrev pub or_zero_time : Option ℕ → ℕ
or_zero_time none = 0
or_zero_time (some t) = t

abbrev pub rehydrated : EventRow → Option Status → Option Event
rehydrated row none = none
rehydrated row (some status) = some (
    rehydrate_event row.id row.aggregate_type row.aggregate_id row.event_type row.payload status
      row.created_at (or_zero_time row.published_at))

-- The scan of one row in `scanEvents`.
unfoldable pub scan_event : EventRow → Option Event
scan_event row = rehydrated row (event_status_of row.status)
