-- ===== src/Transfer/Coordinator/Sound.antt =====
-- The commits of the coordinator keep the ledger sound, whatever fails on the way.
use banking_plateform.Base.{List, [], ◌∷◌, All, Str}
use banking_plateform.Ledger.Entry.{IsLine}
use banking_plateform.Ledger.Transaction.{Transaction}
use banking_plateform.Ledger.Repository.{post_transaction_in_tx}
use banking_plateform.Ledger.Repository.Invariant.{IsSound}
use banking_plateform.Outbox.Event.{Event}
use banking_plateform.Outbox.Repository.{insert_event}
use banking_plateform.Storage.{Db, World}
use banking_plateform.Storage.Monad.{call_annotated}
use banking_plateform.Storage.Calls.{call_annotated-db}
use banking_plateform.Storage.Keeps.{
  Keeps, KeepsOk, Keeps-KeepsOk, Keeps-pure, Keeps-bind, KeepsOk-bind, KeepsOk-in_tx,
}
use banking_plateform.Transfer.Saga.{SettlementRecord}
use banking_plateform.Transfer.SagaStore.{insert_saga, insert_settlement}
use banking_plateform.Transfer.Writes.{Writes, IsSound-writes}
use banking_plateform.Transfer.Coordinator.{
  TransferCommit, insert_events, transfer_writes, post_transfer, post_compensation,
}

module _ {P : Db → Type 0} {Allowed : SettlementRecord → Type 0} (k : Writes P Allowed) where
  pub insert_events-Keeps : (es : List Event) → Keeps P (insert_events es)
  unfolding insert_events
  insert_events-Keeps [] = Keeps-pure tt
  insert_events-Keeps (e ∷ es) =
      Keeps-bind (insert_event e) _ (k.event e) (λ _. insert_events-Keeps es)

  transfer_writes-KeepsOk :
      (c : TransferCommit)
      → All IsLine c.ledger_tx.entries
      → Allowed c.settlement
      → KeepsOk P (transfer_writes c)
  unfolding transfer_writes
  transfer_writes-KeepsOk c l a =
      KeepsOk-bind (insert_saga c.saga) _ (Keeps-KeepsOk (k.saga c.saga)) λ _.
        KeepsOk-bind (post_transaction_in_tx c.ledger_tx) _ (k.posting c.ledger_tx l) λ _.
          KeepsOk-bind (insert_events c.events) _ (Keeps-KeepsOk (insert_events-Keeps c.events))
            λ _.
              KeepsOk-bind (insert_settlement c.settlement) _
                (Keeps-KeepsOk (k.settlement c.settlement a))
                λ _. Keeps-KeepsOk (k.saga_state _ _ _)

  pub post_transfer-Keeps :
      (c : TransferCommit)
      → All IsLine c.ledger_tx.entries
      → Allowed c.settlement
      → Keeps P (post_transfer c)
  unfolding post_transfer
  post_transfer-Keeps c l a =
      KeepsOk-in_tx call_annotated _ call_annotated-db (transfer_writes-KeepsOk c l a)

  pub post_compensation-Keeps :
      (tx : Transaction) (saga_id : Str)
      → All IsLine tx.entries
      → Keeps P (post_compensation tx saga_id)
  unfolding post_compensation
  post_compensation-Keeps tx saga_id l = KeepsOk-in_tx call_annotated _ call_annotated-db (
      KeepsOk-bind (post_transaction_in_tx tx) _ (k.posting tx l)
        (λ _. Keeps-KeepsOk (k.saga_state saga_id _ _)))

-- Whatever the database transaction of a transfer answers, and whatever calls fail on the way, a
-- sound ledger stays sound, when the lines of the journal are well formed.
pub post_transfer-IsSound :
    (c : TransferCommit) (w : World)
    → All IsLine c.ledger_tx.entries
    → IsSound w.db
    → IsSound (post_transfer c w).1.db
post_transfer-IsSound c w l h = (post_transfer-Keeps IsSound-writes c l tt).at w h

-- Whatever the database transaction of a compensation answers, and whatever calls fail on the way,
-- a sound ledger stays sound, when the lines of the reversal are well formed.
pub post_compensation-IsSound :
    (tx : Transaction) (saga_id : Str) (w : World)
    → All IsLine tx.entries
    → IsSound w.db
    → IsSound (post_compensation tx saga_id w).1.db
post_compensation-IsSound tx saga_id w l h =
    (post_compensation-Keeps IsSound-writes tx saga_id l).at w h
