-- ===== src/Transfer/Coordinator.antt =====
-- internal/platform/uow/postgres/coordinator.go: the writes of a transfer in one transaction.
pub mod Sound
pub mod Idle
pub mod Published
use banking_plateform.Base.{ℕ, List, [], ◌∷◌, Str, text}
use banking_plateform.Ledger.Transaction.{Transaction}
use banking_plateform.Ledger.Repository.{post_transaction_in_tx}
use banking_plateform.Outbox.Event.{Event}
use banking_plateform.Outbox.Repository.{insert_event}
use banking_plateform.Transfer.Saga.{SagaRecord, SettlementRecord, posted, compensated}
use banking_plateform.Transfer.SagaStore.{
  insert_saga, insert_settlement, update_saga_state, SagaFields,
}
use banking_plateform.Storage.Monad.{M, pure, call_annotated, in_tx, ◌>>=◌, ◌>>◌}

pub record TransferCommit : Type 0 where
  pub ledger_tx : Transaction
  pub events : List Event
  pub saga : SagaRecord
  pub settlement : SettlementRecord

unfoldable pub insert_events : List Event → M (Unit {0})
insert_events [] = pure tt
insert_events (e ∷ es) = insert_event e >>= λ _. insert_events es

abbrev pub posted_fields : SagaRecord → SagaFields
posted_fields saga = record {
  transaction_id = saga.transaction_id;
  settlement_id = saga.settlement_id;
  failure_reason = [];
}

-- The writes of `PostTransfer`, in their order.
unfoldable pub transfer_writes : TransferCommit → M (Unit {0})
transfer_writes commit = do
  insert_saga commit.saga
  post_transaction_in_tx commit.ledger_tx
  insert_events commit.events
  insert_settlement commit.settlement
  update_saga_state commit.saga.id posted (posted_fields commit.saga)

unfoldable pub post_transfer : TransferCommit → M (Unit {0})
post_transfer commit = in_tx call_annotated (transfer_writes commit)

-- `PostTransactionWithEvents`
unfoldable pub post_transaction_with_events : Transaction → List Event → M (Unit {0})
post_transaction_with_events tx events =
    in_tx call_annotated (post_transaction_in_tx tx >> insert_events events)

abbrev pub reversed_fields : SagaFields
reversed_fields = record {
  transaction_id = [];
  settlement_id = [];
  failure_reason = text "sarie settlement failed; funds reversed";
}

-- `PostCompensation`
unfoldable pub post_compensation : Transaction → Str → M (Unit {0})
post_compensation tx saga_id =
    in_tx call_annotated
      (post_transaction_in_tx tx >> update_saga_state saga_id compensated reversed_fields)
