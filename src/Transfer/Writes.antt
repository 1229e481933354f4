-- ===== src/Transfer/Writes.antt =====
-- The interface between the stores and the services: what the writes of a transfer and of its
-- settlement keep of the tables.
use banking_plateform.Base.{All, Str, arith}
use banking_plateform.Shared.Int64.{InRange}
use banking_plateform.Ledger.Entry.{IsLine}
use banking_plateform.Ledger.Transaction.{Transaction}
use banking_plateform.Ledger.Repository.{post_transaction_in_tx}
use banking_plateform.Ledger.Repository.Invariant.{IsSound}
use banking_plateform.Ledger.Keeps.{Avoids, Avoids-Keeps, post_transaction_in_tx-KeepsOk}
use banking_plateform.Outbox.Event.{Event}
use banking_plateform.Outbox.Repository.{insert_event}
use banking_plateform.Storage.{Db}
use banking_plateform.Storage.Calls.{call-db, call_annotated-db}
use banking_plateform.Storage.Keeps.{Keeps, KeepsOk, Both, Keeps-Both, KeepsOk-Both}
use banking_plateform.Transfer.Saga.{SagaState, SagaRecord, SettlementStatus, SettlementRecord}
use banking_plateform.Transfer.SagaStore.{
  SagaFields, insert_saga, insert_settlement, update_saga_state, update_settlement_status,
  count_attempt,
}

-- A property of the tables that every write keeps; a settlement is inserted only if it is `Allowed`.
pub record Writes (P : Db → Type 0) (Allowed : SettlementRecord → Type 0) : Type 0 where
  pub saga : (s : SagaRecord) → Keeps P (insert_saga s)
  pub event : (e : Event) → Keeps P (insert_event e)
  pub settlement : (s : SettlementRecord) → Allowed s → Keeps P (insert_settlement s)
  pub allowed : (s : SettlementRecord) → InRange s.amount_halalas → Allowed s
  pub saga_state :
      (id : Str) (state : SagaState) (fields : SagaFields)
      → Keeps P (update_saga_state id state fields)
  pub settlement_status :
      (id : Str) (status : SettlementStatus) (reason : Str)
      → Keeps P (update_settlement_status id status reason)
  pub attempt : (id : Str) → Keeps P (count_attempt id)
  pub posting : (tx : Transaction) → All IsLine tx.entries → KeepsOk P (post_transaction_in_tx tx)

pub insert_saga-Avoids : (s : SagaRecord) → Avoids (insert_saga s)
unfolding insert_saga
insert_saga-Avoids s = record { at = λ w. ground (arith, call-db w) }

pub insert_event-Avoids : (e : Event) → Avoids (insert_event e)
unfolding insert_event
insert_event-Avoids e = record { at = λ w. ground (arith, call_annotated-db w) }

pub insert_settlement-Avoids : (s : SettlementRecord) → Avoids (insert_settlement s)
unfolding insert_settlement
insert_settlement-Avoids s = record { at = λ w. ground (arith, call-db w) }

pub update_saga_state-Avoids :
    (id : Str) (state : SagaState) (fields : SagaFields)
    → Avoids (update_saga_state id state fields)
unfolding update_saga_state
update_saga_state-Avoids id state fields = record { at = λ w. ground (arith, call-db w) }

pub update_settlement_status-Avoids :
    (id : Str) (status : SettlementStatus) (reason : Str)
    → Avoids (update_settlement_status id status reason)
unfolding update_settlement_status
update_settlement_status-Avoids id status reason = record { at = λ w. ground (arith, call-db w) }

pub count_attempt-Avoids : (id : Str) → Avoids (count_attempt id)
unfolding count_attempt
count_attempt-Avoids id = record { at = λ w. ground (arith, call-db w) }

-- The soundness of the ledger is kept by every write, whatever settlement is inserted.
pub IsSound-writes : Writes IsSound (λ _. Unit {0})
IsSound-writes = record {
  saga = λ s. Avoids-Keeps (insert_saga-Avoids s);
  event = λ e. Avoids-Keeps (insert_event-Avoids e);
  settlement = λ s _. Avoids-Keeps (insert_settlement-Avoids s);
  allowed = λ _ _. tt;
  saga_state = λ id state fields. Avoids-Keeps (update_saga_state-Avoids id state fields);
  settlement_status =
      λ id status reason. Avoids-Keeps (update_settlement_status-Avoids id status reason);
  attempt = λ id. Avoids-Keeps (count_attempt-Avoids id);
  posting = post_transaction_in_tx-KeepsOk;
}

pub Writes-Both :
    {P Q : Db → Type 0} {Allowed : SettlementRecord → Type 0}
    → Writes P Allowed
    → Writes Q Allowed
    → Writes (Both P Q) Allowed
Writes-Both k l = record {
  saga = λ s. Keeps-Both (k.saga s) (l.saga s);
  event = λ e. Keeps-Both (k.event e) (l.event e);
  settlement = λ s a. Keeps-Both (k.settlement s a) (l.settlement s a);
  allowed = k.allowed;
  saga_state =
      λ id state fields. Keeps-Both (k.saga_state id state fields) (l.saga_state id state fields);
  settlement_status = λ id status reason.
      Keeps-Both (k.settlement_status id status reason) (l.settlement_status id status reason);
  attempt = λ id. Keeps-Both (k.attempt id) (l.attempt id);
  posting = λ tx lines. KeepsOk-Both (k.posting tx lines) (l.posting tx lines);
}
