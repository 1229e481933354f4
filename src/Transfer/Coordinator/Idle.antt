-- ===== src/Transfer/Coordinator/Idle.antt =====
-- The writes of a transfer leave the Redis records alone.
use banking_plateform.Base.{List, [], ◌∷◌, Str, not, arith}
use banking_plateform.Shared.Errors.{domain, unbalanced_transaction}
use banking_plateform.Ledger.Account.{Account}
use banking_plateform.Ledger.Entry.{Entry}
use banking_plateform.Ledger.Transaction.{Transaction, is_balanced}
use banking_plateform.Ledger.Repository.{
  post_transaction_in_tx, lock_accounts, validate_sufficient_funds, check_funds, insert_header,
  insert_entry, insert_entries, list_entries_by_account, unique_account_ids,
}
use banking_plateform.Outbox.Event.{Event}
use banking_plateform.Outbox.Repository.{insert_event}
use banking_plateform.Storage.Monad.{when, call_annotated}
use banking_plateform.Storage.Idles.{
  Idles, Idles-pure, Idles-when, Idles-call, Idles-call_annotated, Idles-bind, Idles-in_tx,
}
use banking_plateform.Transfer.Coordinator.{
  TransferCommit, insert_events, transfer_writes, post_transfer, posted_fields,
}
use banking_plateform.Transfer.Saga.{SagaRecord, SettlementRecord, SagaState, posted}
use banking_plateform.Transfer.SagaStore.{
  SagaFields, insert_saga, insert_settlement, update_saga_state,
}

list_entries-Idles : (id : Str) → Idles (list_entries_by_account id)
unfolding list_entries_by_account
list_entries-Idles id = record { at = λ w q. ground (arith, Idles-call_annotated.at w q) }

lock_accounts-Idles : (ids : List Str) → Idles (lock_accounts ids)
unfolding lock_accounts
lock_accounts-Idles ids = record { at = λ w q. ground (arith, Idles-call_annotated.at w q) }

insert_header-Idles : (tx : Transaction) → Idles (insert_header tx)
unfolding insert_header
insert_header-Idles tx = record { at = λ w q. ground (arith, Idles-call_annotated.at w q) }

insert_entry-Idles : (tx : Transaction) (e : Entry) → Idles (insert_entry tx e)
unfolding insert_entry
insert_entry-Idles tx e = record { at = λ w q. ground (arith, Idles-call_annotated.at w q) }

insert_event-Idles : (e : Event) → Idles (insert_event e)
unfolding insert_event
insert_event-Idles e = record { at = λ w q. ground (arith, Idles-call_annotated.at w q) }

insert_saga-Idles : (s : SagaRecord) → Idles (insert_saga s)
unfolding insert_saga
insert_saga-Idles s = record { at = λ w q. ground (arith, Idles-call.at w q) }

insert_settlement-Idles : (s : SettlementRecord) → Idles (insert_settlement s)
unfolding insert_settlement
insert_settlement-Idles s = record { at = λ w q. ground (arith, Idles-call.at w q) }

pub update_saga_state-Idles :
    (id : Str) (state : SagaState) (fields : SagaFields) → Idles (update_saga_state id state fields)
unfolding update_saga_state
update_saga_state-Idles id state fields = record { at = λ w q. ground (arith, Idles-call.at w q) }

check_funds-Idles : (tx : Transaction) (a : Account) → Idles (check_funds tx a)
unfolding check_funds
check_funds-Idles tx a = record { at = λ w q. ground (arith, (list_entries-Idles a.id).at w q) }

validate-Idles :
    (tx : Transaction) (accounts : List Account) → Idles (validate_sufficient_funds tx accounts)
unfolding validate_sufficient_funds
validate-Idles tx [] = Idles-pure tt
validate-Idles tx (a ∷ accounts) =
    Idles-bind (check_funds tx a) _ (check_funds-Idles tx a) λ _. validate-Idles tx accounts

insert_entries-Idles : (tx : Transaction) (es : List Entry) → Idles (insert_entries tx es)
unfolding insert_entries
insert_entries-Idles tx [] = Idles-pure tt
insert_entries-Idles tx (e ∷ es) =
    Idles-bind (insert_entry tx e) _ (insert_entry-Idles tx e) λ _. insert_entries-Idles tx es

pub posting-Idles : (tx : Transaction) → Idles (post_transaction_in_tx tx)
unfolding post_transaction_in_tx
posting-Idles tx =
    Idles-bind (when (not (is_balanced tx)) (domain unbalanced_transaction)) _
      (Idles-when (not (is_balanced tx)) (domain unbalanced_transaction))
      λ _.
        Idles-bind (lock_accounts (unique_account_ids tx)) _
          (lock_accounts-Idles (unique_account_ids tx))
          λ accounts.
            Idles-bind (validate_sufficient_funds tx accounts) _ (validate-Idles tx accounts) λ _.
              Idles-bind (insert_header tx) _ (insert_header-Idles tx)
                λ _. insert_entries-Idles tx tx.entries

insert_events-Idles : (es : List Event) → Idles (insert_events es)
unfolding insert_events
insert_events-Idles [] = Idles-pure tt
insert_events-Idles (e ∷ es) =
    Idles-bind (insert_event e) _ (insert_event-Idles e) λ _. insert_events-Idles es

writes-Idles : (commit : TransferCommit) → Idles (transfer_writes commit)
unfolding transfer_writes
writes-Idles commit = Idles-bind (insert_saga commit.saga) _ (insert_saga-Idles commit.saga) λ _.
    Idles-bind (post_transaction_in_tx commit.ledger_tx) _ (posting-Idles commit.ledger_tx) λ _.
      Idles-bind (insert_events commit.events) _ (insert_events-Idles commit.events) λ _.
        Idles-bind (insert_settlement commit.settlement) _
          (insert_settlement-Idles commit.settlement)
          λ _. update_saga_state-Idles commit.saga.id posted (posted_fields commit.saga)

pub post_transfer-Idles : (commit : TransferCommit) → Idles (post_transfer commit)
unfolding post_transfer
post_transfer-Idles commit =
    Idles-in_tx call_annotated (transfer_writes commit) Idles-call_annotated (writes-Idles commit)
