-- ===== src/Transfer/Service.antt =====
-- internal/transfer/app/service.go: the transfer saga behind the idempotency guard.
pub mod Journal
pub mod Moves
pub mod Sound
pub mod Twice
use banking_plateform.Base.{
  ℕ, Bool, true, false, not, ◌||◌, List, [], ◌∷◌, ◌++◌, Str, text, is_empty, if◌then◌else◌,
}
use banking_plateform.Base.Int.{pos}
use banking_plateform.Shared.Errors.{
  Error, Result, ok, err, annotated, domain, validation, not_found, is_domain_code, relabel,
}
use banking_plateform.Shared.Errors as Errors
use banking_plateform.Shared.GoText.{Unicode}
use banking_plateform.Shared.Digest.{Digest}
use banking_plateform.Shared.Money.{Money}
use banking_plateform.Idempotency.Key.{parse_key, saga_id_from_key}
use banking_plateform.Idempotency.Record.{Outcome}
use banking_plateform.Idempotency.Guard.{run}
use banking_plateform.Ledger.Account.{Account, is_liability}
use banking_plateform.Ledger.Entry.{Entry, new_entry, debit, credit}
use banking_plateform.Ledger.Transaction.{Transaction, new_transaction}
use banking_plateform.Ledger.Repository.{get_account}
use banking_plateform.Outbox.Event.{Event}
use banking_plateform.Transfer.Saga.{
  SagaState, SagaRecord, SettlementStatus, SettlementRecord, compliance_ok, posted, pending,
}
use banking_plateform.Transfer.Command.{
  Command, TransferResult, transfer_scope, validate, fingerprint, command_transaction_id, entry_id,
  command_json, command_from_json, transfer_posted_event,
}
use banking_plateform.Transfer.SagaStore.{
  get_saga_by_transaction_id, get_saga_by_idempotency_key, get_settlement_by_saga_id,
}
use banking_plateform.Transfer.Codec.{encode_transfer_result, decode_transfer_result}
use banking_plateform.Transfer.Coordinator.{TransferCommit, post_transfer}
use banking_plateform.Storage.{World}
use banking_plateform.Storage.Monad.{M, pure, raise, lift, gets, when, ◌>>=◌, ◌>>◌}

-- The read model of internal/transfer/domain/status.go.
pub record Status : Type 0 where
  pub saga_id : Str
  pub saga_state : SagaState
  pub idempotency_key : Str
  pub transaction_id : Str
  pub settlement_id : Str
  pub settlement_status : SettlementStatus
  pub settlement_error : Str
  pub failure_reason : Str
  pub from_account_id : Str
  pub to_account_id : Str
  pub amount : Money
  pub beneficiary_iban : Str
  pub created_at : ℕ
  pub updated_at : ℕ

unfoldable pub status_of : SagaRecord → Command → SettlementStatus → Str → Status
status_of saga cmd settlement_status settlement_error = record {
  saga_id = saga.id;
  saga_state = saga.state;
  idempotency_key = saga.idempotency_key;
  transaction_id = saga.transaction_id;
  settlement_id = saga.settlement_id;
  settlement_status = settlement_status;
  settlement_error = settlement_error;
  failure_reason = saga.failure_reason;
  from_account_id = cmd.from_account_id;
  to_account_id = cmd.to_account_id;
  amount = cmd.amount;
  beneficiary_iban = cmd.beneficiary_iban;
  created_at = saga.created_at;
  updated_at = saga.updated_at;
}

-- A settlement that is not there leaves the status empty; any other failure is returned.
unfoldable pub with_settlement : SagaRecord → Command → Result SettlementRecord → Result Status
with_settlement saga cmd (ok stl) = ok (status_of saga cmd stl.status stl.last_error)
with_settlement saga cmd (err e) =
    if is_domain_code e not_found
    then ok (status_of saga cmd (SettlementStatus.unnamed []) [])
    else err e

unfoldable pub read_settlement : SagaRecord → Command → M Status
read_settlement saga cmd w =
    let (r, w') = get_settlement_by_saga_id saga.id w in (with_settlement saga cmd r, w')

-- `statusFromSaga`
unfoldable pub status_from_saga : SagaRecord → M Status
status_from_saga saga = do
  cmd ← lift (relabel (command_from_json saga.command_json))
  read_settlement saga cmd

unfoldable pub get_status_by_transaction_id : Str → M Status
get_status_by_transaction_id id = do saga ← get_saga_by_transaction_id id; status_from_saga saga

unfoldable pub get_status_by_idempotency_key : Str → M Status
get_status_by_idempotency_key key = do saga ← get_saga_by_idempotency_key key; status_from_saga saga

-- The two entries of a transfer, and its journal transaction.
unfoldable pub transfer_journal : ℕ → Str → Str → Command → Result Transaction
transfer_journal now tx_id description cmd =
    Errors.◌>>=◌ (new_entry (entry_id tx_id (pos 1)) cmd.from_account_id debit cmd.amount) λ d.
      Errors.◌>>=◌ (new_entry (entry_id tx_id (pos 2)) cmd.to_account_id credit cmd.amount)
        λ c. new_transaction now tx_id description (d ∷ c ∷ []) now

unfoldable pub describe : Command → Str
describe cmd =
    if is_empty cmd.description
    then text "transfer to " ++ cmd.beneficiary_iban
    else cmd.description

unfoldable pub settlement_id_of : Str → Str
settlement_id_of tx_id = text "stl_" ++ tx_id

unfoldable pub posted_result : Str → Str → Command → TransferResult
posted_result saga_id tx_id cmd = record {
  transaction_id = tx_id;
  from_account_id = cmd.from_account_id;
  to_account_id = cmd.to_account_id;
  amount = cmd.amount;
  saga_id = saga_id;
  settlement_id = settlement_id_of tx_id;
  saga_state = posted;
  settlement_status = pending;
  replayed = false;
}

unfoldable pub commit_of : ℕ → Command → TransferResult → Transaction → Event → TransferCommit
commit_of now cmd result tx event = record {
  ledger_tx = tx;
  events = event ∷ [];
  saga = record {
    id = result.saga_id;
    state = compliance_ok;
    idempotency_key = cmd.idempotency_key;
    command_json = command_json cmd;
    transaction_id = result.transaction_id;
    settlement_id = result.settlement_id;
    failure_reason = [];
    created_at = now;
    updated_at = now;
  };
  settlement = record {
    id = result.settlement_id;
    saga_id = result.saga_id;
    beneficiary_iban = cmd.beneficiary_iban;
    amount_halalas = cmd.amount.halalas;
    currency = cmd.amount.currency;
    status = pending;
    attempts = 0;
    last_error = [];
    created_at = now;
    updated_at = now;
  };
}

-- The ports of the service: the screens, and what the standard library computes.
pub record Ports : Type 0 where
  pub fraud : Str → Money → M (Unit {0})
  pub compliance : Str → Str → M (Unit {0})
  pub unicode : Unicode
  pub digest : Digest

module _ (ports : Ports) where
  unfoldable pub screen : Command → M (Unit {0})
  screen cmd = do
    ports.fraud cmd.from_account_id cmd.amount
    ports.compliance cmd.beneficiary_iban cmd.beneficiary_name

  unfoldable pub check_accounts : Command → M (Unit {0})
  check_accounts cmd = do
    from ← get_account cmd.from_account_id
    to ← get_account cmd.to_account_id
    when (not (is_liability from.typ) || not (is_liability to.typ)) (domain validation)

  -- The commit of a transfer whose screens and accounts have passed, and its answer.
  unfoldable pub post : ℕ → Command → M Outcome
  post now cmd = do
    tx_id ← lift (command_transaction_id ports.digest cmd)
    tx ← lift (transfer_journal now tx_id (describe cmd) cmd)
    let result = posted_result (saga_id_from_key ports.digest.of_text cmd.idempotency_key) tx_id cmd
    event ← lift (transfer_posted_event now cmd result)
    post_transfer (commit_of now cmd result tx event)
    pure (record { resource_id = tx_id; payload = encode_transfer_result result })

  -- `runSaga`
  unfoldable pub run_saga : Command → M Outcome
  run_saga cmd = do now ← gets (λ w. w.now); screen cmd; check_accounts cmd; post now cmd

  -- `Execute`
  unfoldable pub execute : Command → M TransferResult
  execute cmd = do
    lift (validate ports.unicode cmd)
    key ← lift (parse_key cmd.idempotency_key)
    answer ← run transfer_scope key (fingerprint ports.unicode ports.digest cmd) (run_saga cmd)
    result ← lift (decode_transfer_result answer.0.payload)
    pure (record result { replayed = answer.1 })
