-- ===== src/Outbox/Event.antt =====
-- internal/outbox/domain/event.go
use banking_plateform.Base.{ℕ, not, ◌||◌, ◌++◌, Str, text, is_empty}
use banking_plateform.Shared.Errors.{Result, ok, domain, validation, ◌>>◌, fail_if}
use banking_plateform.Shared.Json.{Json, is_valid_json, is_empty_json}

pub data Status : Type 0 where
  pending published failed : Status

-- A time of 0 is Go's zero time, and SQL's NULL.
pub record Event : Type 0 where
  pub id : Str
  pub aggregate_type : Str
  pub aggregate_id : Str
  pub event_type : Str
  pub payload : Json
  pub status : Status
  pub created_at : ℕ
  pub published_at : ℕ

abbrev pub aggregate_transfer : Str
aggregate_transfer = text "transfer"

abbrev pub event_transfer_posted : Str
event_transfer_posted = text "transfer.posted"

unfoldable pub new_event : ℕ → Str → Str → Str → Str → Json → Result Event
new_event now id aggregate_type aggregate_id event_type payload = do
  fail_if (is_empty id) (domain validation)
  fail_if (is_empty aggregate_type || is_empty aggregate_id || is_empty event_type)
      (domain validation)
  fail_if (is_empty_json payload) (domain validation)
  fail_if (not (is_valid_json payload)) (domain validation)
  ok (record {
    id = id;
    aggregate_type = aggregate_type;
    aggregate_id = aggregate_id;
    event_type = event_type;
    payload = payload;
    status = pending;
    created_at = now;
    published_at = 0;
  })

-- `TransferPostedID`
unfoldable pub transfer_posted_id : Str → Str
transfer_posted_id transaction_id = text "evt_transfer_posted_" ++ transaction_id
