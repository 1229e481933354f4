-- ===== src/Idempotency/Record.antt =====
-- internal/idempotency/domain/record.go
use banking_plateform.Base.{ℕ, Str}
use banking_plateform.Shared.Json.{Json}

pub data Status : Type 0 where
  processing completed failed : Status

-- A stored record; a time of 0 is Go's zero time.
pub record Record : Type 0 where
  pub scope : Str
  pub key : Str
  pub status : Status
  pub fingerprint : Str
  pub resource_id : Str
  pub payload : Json
  pub created_at : ℕ
  pub completed_at : ℕ

-- The result of an operation, as the guard stores and replays it.
pub record Outcome : Type 0 where
  pub resource_id : Str
  pub payload : Json

-- `Record.ToResult`
unfoldable pub to_outcome : Record → Outcome
to_outcome r = record { resource_id = r.resource_id; payload = r.payload }
