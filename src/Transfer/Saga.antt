-- ===== src/Transfer/Saga.antt =====
-- internal/transfer/domain/saga.go and saga_record.go: the states and the stored records. Both states
-- are Go string types with named values; `unnamed` is any other string.
use banking_plateform.Base.{ℕ, Str, text, str_eq, if◌then◌else◌}
use banking_plateform.Base.Int.{ℤ}
use banking_plateform.Shared.Json.{Json}

pub data SagaState : Type 0 where
  started fraud_ok compliance_ok posted settling completed : SagaState
  compensating compensated failed : SagaState
  unnamed : Str → SagaState

pub data SettlementStatus : Type 0 where
  pending settled failed : SettlementStatus
  unnamed : Str → SettlementStatus

-- An empty text stands for SQL's NULL, as `nullString` writes it and the scans read it.
pub record SagaRecord : Type 0 where
  pub id : Str
  pub state : SagaState
  pub idempotency_key : Str
  pub command_json : Json
  pub transaction_id : Str
  pub settlement_id : Str
  pub failure_reason : Str
  pub created_at : ℕ
  pub updated_at : ℕ

pub record SettlementRecord : Type 0 where
  pub id : Str
  pub saga_id : Str
  pub beneficiary_iban : Str
  pub amount_halalas : ℤ
  pub currency : Str
  pub status : SettlementStatus
  pub attempts : ℕ
  pub last_error : Str
  pub created_at : ℕ
  pub updated_at : ℕ

-- The conversions to and from Go's strings.
unfoldable pub saga_state_text : SagaState → Str
saga_state_text started = text "STARTED"
saga_state_text fraud_ok = text "FRAUD_OK"
saga_state_text compliance_ok = text "COMPLIANCE_OK"
saga_state_text posted = text "POSTED"
saga_state_text settling = text "SETTLING"
saga_state_text completed = text "COMPLETED"
saga_state_text compensating = text "COMPENSATING"
saga_state_text compensated = text "COMPENSATED"
saga_state_text SagaState.failed = text "FAILED"
saga_state_text (SagaState.unnamed s) = s

unfoldable pub saga_state_of : Str → SagaState
saga_state_of s =
    if str_eq s (text "STARTED")
    then started
    else if str_eq s (text "FRAUD_OK")
    then fraud_ok
    else if str_eq s (text "COMPLIANCE_OK")
    then compliance_ok
    else if str_eq s (text "POSTED")
    then posted
    else if str_eq s (text "SETTLING")
    then settling
    else if str_eq s (text "COMPLETED")
    then completed
    else if str_eq s (text "COMPENSATING")
    then compensating
    else if str_eq s (text "COMPENSATED")
    then compensated
    else if str_eq s (text "FAILED")
    then SagaState.failed
    else SagaState.unnamed s

unfoldable pub settlement_status_text : SettlementStatus → Str
settlement_status_text pending = text "PENDING"
settlement_status_text settled = text "SETTLED"
settlement_status_text SettlementStatus.failed = text "FAILED"
settlement_status_text (SettlementStatus.unnamed s) = s

unfoldable pub settlement_status_of : Str → SettlementStatus
settlement_status_of s =
    if str_eq s (text "PENDING")
    then pending
    else if str_eq s (text "SETTLED")
    then settled
    else if str_eq s (text "FAILED")
    then SettlementStatus.failed
    else SettlementStatus.unnamed s
