-- ===== src/Outbox/Repository.antt =====
-- internal/outbox/adapters/postgres/repository.go and internal/outbox/app/relay.go
use banking_plateform.Base.{
  ℕ, ◌+◌, ◌==◌, Bool, true, false, not, ◌&&◌, List, [], ◌∷◌, ◌++◌, Str, str_eq, exists, keep, take,
  order_by, ltb, if◌then◌else◌,
}
use banking_plateform.Shared.Errors.{Result, ok, err, domain, conflict, not_found}
use banking_plateform.Outbox.Event.{Event, Status, pending, published, failed}
use banking_plateform.Storage.{Db}
use banking_plateform.Storage.Monad.{
  M, pure, gets, when, modify_db, call, call_annotated, in_tx, ◌>>=◌, ◌>>◌,
}

-- `InsertInTx`: the row is pending whatever the status of the event.
unfoldable pub insert_event : Event → M (Unit {0})
insert_event event = do
  call_annotated
  taken ← gets (λ w. exists (λ e. str_eq e.id event.id) w.db.outbox)
  when taken (domain conflict)
  modify_db (λ db. record db {
    outbox = db.outbox ++ record event { status = pending; published_at = 0 } ∷ [];
  })

abbrev pub is_pending : Status → Bool
is_pending pending = true
is_pending _ = false

abbrev pub older : Event → Event → Bool
older a b = ltb a.created_at b.created_at

-- `WHERE status = 'PENDING' ORDER BY created_at ASC LIMIT $1`; events of one time keep their order.
abbrev pub pending_events : ℕ → Db → List Event
pending_events limit db = take limit (order_by older (keep (λ e. is_pending e.status) db.outbox))

abbrev pub or_ten : ℕ → ℕ
or_ten limit = if limit == 0 then 10 else limit

-- `FetchPending`
unfoldable pub fetch_pending : ℕ → M (List Event)
fetch_pending limit = do call_annotated; gets (λ w. pending_events (or_ten limit) w.db)

-- `UPDATE outbox_events ... WHERE id = $1`, over the rows.
unfoldable pub set_status : (Event → Event) → Str → List Event → List Event
set_status f id [] = []
set_status f id (e ∷ es) = (if str_eq e.id id then f e else e) ∷ set_status f id es

abbrev pub to_published : ℕ → Event → Event
to_published now e = record e { status = published; published_at = now }

abbrev pub to_failed : Event → Event
to_failed e = record e { status = failed }

abbrev pub if_pending : (Event → Event) → Event → Event
if_pending f e = if is_pending e.status then f e else e

-- `markPublishedInTx`
unfoldable pub mark_published_in_tx : Str → M (Unit {0})
mark_published_in_tx id = do
  call
  now ← gets (λ w. w.now)
  modify_db (λ db. record db { outbox = set_status (to_published now) id db.outbox })

-- `markFailedInTx`
unfoldable pub mark_failed_in_tx : Str → M (Unit {0})
mark_failed_in_tx id = do
  call
  modify_db (λ db. record db { outbox = set_status to_failed id db.outbox })

-- `MarkPublished`: no pending row of that id is an error.
unfoldable pub mark_published : Str → M (Unit {0})
mark_published id = do
  call_annotated
  now ← gets (λ w. w.now)
  hit ← gets (λ w. exists (λ e. str_eq e.id id && is_pending e.status) w.db.outbox)
  modify_db (λ db. record db { outbox = set_status (if_pending (to_published now)) id db.outbox })
  when (not hit) (domain not_found)

-- `MarkFailed`
unfoldable pub mark_failed : Str → M (Unit {0})
mark_failed id = do
  call_annotated
  modify_db (λ db. record db { outbox = set_status (if_pending to_failed) id db.outbox })

-- The publisher is an argument.
module _ (publish : Event → M (Unit {0})) where
  -- What follows one answer of the publisher: the mark, and the number processed.
  unfoldable pub mark_answer : Event → Result (Unit {0}) → M ℕ
  mark_answer event (ok _) = mark_published_in_tx event.id >> pure 1
  mark_answer event (err _) = mark_failed_in_tx event.id >> pure 0

  unfoldable pub publish_one : Event → M ℕ
  publish_one event w = let (r, w') = publish event w in mark_answer event r w'

  -- The loop of `ProcessPendingBatch`.
  unfoldable pub publish_all : ℕ → List Event → M ℕ
  publish_all processed [] = pure processed
  publish_all processed (e ∷ es) = publish_one e >>= λ n. publish_all (processed + n) es

  unfoldable pub claim_and_publish : ℕ → M ℕ
  claim_and_publish limit = do
    call_annotated
    events ← gets (λ w. pending_events limit w.db)
    publish_all 0 events

  -- `ProcessPendingBatch`
  unfoldable pub process_pending_batch : ℕ → M ℕ
  process_pending_batch limit = in_tx call_annotated (claim_and_publish (or_ten limit))
