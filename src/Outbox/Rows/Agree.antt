-- ===== src/Outbox/Rows/Agree.antt =====
-- The rows and the events agree.
use banking_plateform.Base.{ℕ, ◌≡◌, refl, ap, subst, str_eq, Option, none, some}
use banking_plateform.Outbox.Event.{Event, Status, pending, published, failed}
use banking_plateform.Outbox.Repository.{to_published, to_failed}
use banking_plateform.Outbox.Rows.{
  event_status_text, event_status_of, EventRow, event_row, publish_row, fail_row, rehydrate_event,
  rehydrated, or_zero_time, scan_event,
}

status_back : (s : Status) → event_status_of (event_status_text s) ≡ some s
unfolding event_status_of event_status_text str_eq
status_back pending = refl
status_back published = refl
status_back failed = refl

-- A row as it is scanned, but for its status.
abbrev rehydrate_row : EventRow → Status → Event
rehydrate_row row status =
    rehydrate_event row.id row.aggregate_type row.aggregate_id row.event_type row.payload status
      row.created_at (or_zero_time row.published_at)

rehydrated_event :
    (row : EventRow) (o : Option Status) (e : Event)
    → rehydrated row o ≡ some e
    → rehydrate_row row e.status ≡ e
unfolding rehydrate_event
rehydrated_event row none e h = cc
rehydrated_event row (some s) e h =
    let q : rehydrate_row row s ≡ e = cc in subst (λ x. rehydrate_row row x.status ≡ x) q refl

-- An event is scanned as it was inserted: pending, and with no time of publication.
pub scan_event-event_row :
    (e : Event) → scan_event (event_row e) ≡ some (record e { status = pending; published_at = 0 })
unfolding scan_event event_row rehydrate_event
scan_event-event_row e = rw (status_back pending) refl

-- The marks of a row are scanned as the marks of the event.
pub scan_event-publish_row :
    (now : ℕ) (row : EventRow) (e : Event)
    → scan_event row ≡ some e
    → scan_event (publish_row now row) ≡ some (to_published now e)
unfolding scan_event publish_row rehydrate_event
scan_event-publish_row now row e h =
    rw (status_back published)
      (ap (λ x. some (to_published now x)) (rehydrated_event row (event_status_of row.status) e h))

pub scan_event-fail_row :
    (row : EventRow) (e : Event)
    → scan_event row ≡ some e
    → scan_event (fail_row row) ≡ some (to_failed e)
unfolding scan_event fail_row rehydrate_event
scan_event-fail_row row e h =
    rw (status_back failed)
      (ap (λ x. some (to_failed x)) (rehydrated_event row (event_status_of row.status) e h))
