-- ===== src/Transfer/Coordinator/Published.antt =====
-- A posted transfer has its events in the outbox.
use mathlib.Core.List.{append-nil, append_assoc}
use banking_plateform.Base.{refl, ◌≡◌, ap, sym, ◌∙◌, List, [], ◌∷◌, ◌++◌, Str, arith}
use banking_plateform.Shared.Errors.{ok}
use banking_plateform.Ledger.Repository.{post_transaction_in_tx}
use banking_plateform.Ledger.Repository.Frame.{post_transaction_in_tx-SameRest}
use banking_plateform.Storage.Keeps.{Keeps, Keeps-bind}
use banking_plateform.Outbox.Event.{Event, pending}
use banking_plateform.Outbox.Repository.{insert_event}
use banking_plateform.Storage.{Db, World}
use banking_plateform.Storage.Monad.{call_annotated}
use banking_plateform.Storage.Calls.{call-db, call_annotated-db, bind_ok, in_tx_commits}
use banking_plateform.Transfer.Saga.{SagaRecord, SettlementRecord, SagaState, posted}
use banking_plateform.Transfer.SagaStore.{
  insert_saga, insert_settlement, update_saga_state, SagaFields,
}
use banking_plateform.Transfer.Coordinator.{
  TransferCommit, insert_events, transfer_writes, posted_fields, post_transfer,
}

-- The outbox is `o`.
abbrev HasOutbox : List Event → Db → Type 0
HasOutbox o db = db.outbox ≡ o

insert_saga-HasOutbox :
    (o : List Event) (saga : SagaRecord) → Keeps (HasOutbox o) (insert_saga saga)
unfolding insert_saga
insert_saga-HasOutbox o saga = record { at = λ w h. ground (arith, call-db w, h) }

insert_settlement-HasOutbox :
    (o : List Event) (stl : SettlementRecord) → Keeps (HasOutbox o) (insert_settlement stl)
unfolding insert_settlement
insert_settlement-HasOutbox o stl = record { at = λ w h. ground (arith, call-db w, h) }

update_saga_state-HasOutbox :
    (o : List Event) (id : Str) (state : SagaState) (fields : SagaFields)
    → Keeps (HasOutbox o) (update_saga_state id state fields)
unfolding update_saga_state
update_saga_state-HasOutbox o id state fields = record { at = λ w h. ground (arith, call-db w, h) }

-- The events as they wait in the outbox.
abbrev pub waiting : List Event → List Event
waiting [] = []
waiting (e ∷ es) = record e { status = pending; published_at = 0 } ∷ waiting es

insert_event_ok :
    (e : Event) (w : World)
    → (insert_event e w).0 ≡ ok tt
    → (insert_event e w).1.db.outbox ≡ w.db.outbox ++ waiting (e ∷ [])
unfolding insert_event
insert_event_ok e w h = ground (arith, call_annotated-db w)

insert_events_ok :
    (es : List Event) (w : World)
    → (insert_events es w).0 ≡ ok tt
    → (insert_events es w).1.db.outbox ≡ w.db.outbox ++ waiting es
unfolding insert_events
insert_events_ok [] w h = sym (append-nil w.db.outbox)
insert_events_ok (e ∷ es) w h =
    let (_, q, step) = bind_ok (insert_event e) (λ _. insert_events es) w h in
    let v = (insert_event e w).1 in
    ap (λ r. r.1.db.outbox) step
    ∙ insert_events_ok es v (ap (λ r. r.0) (sym step) ∙ h)
    ∙ ap (λ l. l ++ waiting es) (insert_event_ok e w q)
    ∙ append_assoc w.db.outbox (waiting (e ∷ [])) (waiting es)

transfer_writes_ok :
    (c : TransferCommit) (w : World)
    → (transfer_writes c w).0 ≡ ok tt
    → (transfer_writes c w).1.db.outbox ≡ w.db.outbox ++ waiting c.events
unfolding transfer_writes
transfer_writes_ok c w h =
    let (_, _, s1) = bind_ok (insert_saga c.saga) _ w h in
    let w1 = (insert_saga c.saga w).1 in
    let h1 = ap (λ r. r.0) (sym s1) ∙ h in
    let (_, _, s2) = bind_ok (post_transaction_in_tx c.ledger_tx) _ w1 h1 in
    let w2 = (post_transaction_in_tx c.ledger_tx w1).1 in
    let h2 = ap (λ r. r.0) (sym s2) ∙ h1 in
    let (_, q, s3) = bind_ok (insert_events c.events) _ w2 h2 in
    let w3 = (insert_events c.events w2).1 in
    let last =
      Keeps-bind {P = HasOutbox w3.db.outbox} (insert_settlement c.settlement)
        (λ _. update_saga_state c.saga.id posted (posted_fields c.saga))
        (insert_settlement-HasOutbox w3.db.outbox c.settlement)
        (λ _. update_saga_state-HasOutbox _ _ _ _) in
    let posting =
      (post_transaction_in_tx-SameRest c.ledger_tx w1.db.outbox w1.db.settlements).at w1
        (record { outbox_same = refl; settlements_same = refl }) in
    ap (λ r. r.1.db.outbox) (s1 ∙ s2 ∙ s3)
    ∙ last.at w3 refl
    ∙ insert_events_ok c.events w2 q
    ∙ ap (λ l. l ++ waiting c.events)
        (posting.outbox_same ∙ (insert_saga-HasOutbox w.db.outbox c.saga).at w refl)

-- A transfer that is posted has its events in the outbox: behind the events of before, in their
-- order, pending and not yet published; no other event is added.
pub post_transfer_publishes :
    (c : TransferCommit) (w : World)
    → (post_transfer c w).0 ≡ ok tt
    → (post_transfer c w).1.db.outbox ≡ w.db.outbox ++ waiting c.events
unfolding post_transfer
post_transfer_publishes c w h =
    let (q, same) = in_tx_commits call_annotated (transfer_writes c) w tt call_annotated-db h in
    ap (λ db. db.outbox) same
    ∙ transfer_writes_ok c (call_annotated w).1 q
    ∙ ap (λ db. db.outbox ++ waiting c.events) (call_annotated-db w)
