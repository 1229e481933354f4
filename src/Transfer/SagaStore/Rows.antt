-- ===== src/Transfer/SagaStore/Rows.antt =====
-- internal/transfer/adapters/postgres/saga_repository.go: the columns of the two tables as they cross
-- the driver, with SQL's NULLs, and what the scans make of them.
pub mod Agree
use banking_plateform.Base.{ℕ, [], Str, is_empty, if◌then◌else◌, Option, none, some}
use banking_plateform.Base.Int.{ℤ}
use banking_plateform.Shared.Json.{Json}
use banking_plateform.Transfer.Saga.{
  SagaState, SagaRecord, SettlementStatus, SettlementRecord, saga_state_text, saga_state_of,
  settlement_status_text, settlement_status_of,
}
use banking_plateform.Transfer.SagaStore.{SagaFields}

-- `nullString`: `none` is NULL.
unfoldable pub null_string : Str → Option Str
null_string v = if is_empty v then none else some v

-- `if lastError != nil { rec.LastError = *lastError }`
abbrev pub or_empty : Option Str → Str
or_empty none = []
or_empty (some v) = v

-- A row of transfer_sagas.
pub record SagaRow : Type 0 where
  pub id : Str
  pub state : Str
  pub idempotency_key : Str
  pub command_json : Json
  pub transaction_id : Option Str
  pub settlement_id : Option Str
  pub failure_reason : Option Str
  pub created_at : ℕ
  pub updated_at : ℕ

-- The arguments of the INSERT of `CreateSaga` and `InsertSagaInTx`.
unfoldable pub saga_to_row : SagaRecord → SagaRow
saga_to_row saga = record {
  id = saga.id;
  state = saga_state_text saga.state;
  idempotency_key = saga.idempotency_key;
  command_json = saga.command_json;
  transaction_id = null_string saga.transaction_id;
  settlement_id = null_string saga.settlement_id;
  failure_reason = null_string saga.failure_reason;
  created_at = saga.created_at;
  updated_at = saga.updated_at;
}

-- `scanSaga` on a row that is found.
unfoldable pub scan_saga : SagaRow → SagaRecord
scan_saga row = record {
  id = row.id;
  state = saga_state_of row.state;
  idempotency_key = row.idempotency_key;
  command_json = row.command_json;
  transaction_id = or_empty row.transaction_id;
  settlement_id = or_empty row.settlement_id;
  failure_reason = or_empty row.failure_reason;
  created_at = row.created_at;
  updated_at = row.updated_at;
}

-- SQL's `COALESCE(NULLIF($n, ''), column)`.
abbrev pub coalesce : Option Str → Option Str → Option Str
coalesce none old = old
coalesce (some v) old = some v

abbrev pub null_if_empty : Str → Option Str
null_if_empty v = if is_empty v then none else some v

-- The SET of `UpdateSagaState` and `UpdateSagaStateInTx`.
unfoldable pub update_row : SagaState → SagaFields → ℕ → SagaRow → SagaRow
update_row state fields now row = record row {
  state = saga_state_text state;
  transaction_id = coalesce (null_if_empty fields.transaction_id) row.transaction_id;
  settlement_id = coalesce (null_if_empty fields.settlement_id) row.settlement_id;
  failure_reason = coalesce (null_if_empty fields.failure_reason) row.failure_reason;
  updated_at = now;
}

-- A row of settlements.
pub record SettlementRow : Type 0 where
  pub id : Str
  pub saga_id : Str
  pub beneficiary_iban : Str
  pub amount_halalas : ℤ
  pub currency : Str
  pub status : Str
  pub attempts : ℕ
  pub last_error : Option Str
  pub created_at : ℕ
  pub updated_at : ℕ

-- The arguments of the INSERT of `CreateSettlement` and `InsertSettlementInTx`.
unfoldable pub settlement_to_row : SettlementRecord → SettlementRow
settlement_to_row settlement = record {
  id = settlement.id;
  saga_id = settlement.saga_id;
  beneficiary_iban = settlement.beneficiary_iban;
  amount_halalas = settlement.amount_halalas;
  currency = settlement.currency;
  status = settlement_status_text settlement.status;
  attempts = settlement.attempts;
  last_error = null_string settlement.last_error;
  created_at = settlement.created_at;
  updated_at = settlement.updated_at;
}

-- `scanSettlement`
unfoldable pub scan_settlement : SettlementRow → SettlementRecord
scan_settlement row = record {
  id = row.id;
  saga_id = row.saga_id;
  beneficiary_iban = row.beneficiary_iban;
  amount_halalas = row.amount_halalas;
  currency = row.currency;
  status = settlement_status_of row.status;
  attempts = row.attempts;
  last_error = or_empty row.last_error;
  created_at = row.created_at;
  updated_at = row.updated_at;
}

-- The SET of `UpdateSettlementStatus`.
unfoldable pub update_status_row : SettlementStatus → Str → ℕ → SettlementRow → SettlementRow
update_status_row status last_error now row = record row {
  status = settlement_status_text status;
  last_error = null_string last_error;
  updated_at = now;
}
