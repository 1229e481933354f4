-- ===== src/System/Commits.antt =====
-- The database transactions of any number of clients and workers, one after another, as the program
-- commits them: sagas are written by transfers, by refunds, and by the progress of the worker, which
-- carries no transaction.
pub mod Refund
use banking_plateform.Base.{
  ◌≡◌, ◌≢◌, ◌⊎◌, inl, inr, refl, sym, subst, ap, ◌∙◌, ℕ, Bool, true, false, ◌||◌, Bool-cases, List,
  [], ◌∷◌, ◌++◌, find, exists, Str, str_eq, str_eq_iff, Option, some, All, arith,
}
use banking_plateform.Ledger.Entry.{Entry, IsLine}
use banking_plateform.Ledger.Repository.{
  create_account, insert_header, insert_entry, post_transaction_in_tx,
}
use banking_plateform.Ledger.Repository.Frame.{post_transaction_in_tx-Keeps}
use banking_plateform.Ledger.Transaction.{Transaction}
use banking_plateform.Outbox.Event.{Event}
use banking_plateform.Outbox.Repository.{insert_event, mark_published_in_tx, mark_failed_in_tx}
use banking_plateform.Platform.Log.{log_entry}
use banking_plateform.Settlement.Processor.{with_reason}
use banking_plateform.Settlement.Processor.Sound.{IsStoredAmount}
use banking_plateform.Shared.Errors.{plain, Result, ok, err, Result-cases}
use banking_plateform.Storage.{Db, World}
use banking_plateform.Storage.Calls.{
  call-db, call_annotated-db, in_tx_atomic, in_tx_commits, bind_ok,
}
use banking_plateform.Storage.Keeps.{
  Keeps, Keeps-same, Keeps-pure, Keeps-when, Keeps-bind, Keeps-KeepsOk, KeepsOk, KeepsOk-in_tx,
}
use banking_plateform.Storage.Monad.{M, call, call_annotated, gets, modify_db, when, ◌>>=◌, ◌>>◌}
use banking_plateform.System.Interleaved.{
  Interleaved, Interleaved-system, Write, perform, start, write, saga, event, settlement,
  saga_state, settlement_status, attempt, account, log, published, failed,
}
use banking_plateform.Transfer.Coordinator.{
  TransferCommit, insert_events, transfer_writes, post_transfer, post_compensation,
}
use banking_plateform.Transfer.Coordinator.Sound.{post_transfer-Keeps, post_compensation-Keeps}
use banking_plateform.Transfer.Saga.{SagaRecord, SagaState, SettlementRecord}
use banking_plateform.Transfer.SagaStore.{
  SagaFields, insert_saga, insert_settlement, update_sagas, updated_saga, update_saga_state,
  update_settlement_status, count_attempt,
}

-- The single writes beside the sagas.
abbrev pub IsAside : Write → Type 0
IsAside (saga s) = ⊥
IsAside (saga_state id state fields) = ⊥
IsAside _ = Unit {0}

pub data Commits (base : Db) : Db → Type 0 where
  begin : Commits base base
  aside : (w : World) (c : Write) → IsAside c → Commits base w.db → Commits base (perform c w).1.db
  progress :
      (w : World) (id : Str) (state : SagaState) (reason : Str)
      → Commits base w.db
      → Commits base (update_saga_state id state (with_reason reason) w).1.db
  transfer :
      (w : World) (c : TransferCommit)
      → All IsLine c.ledger_tx.entries
      → IsStoredAmount c.settlement
      → Commits base w.db
      → Commits base (post_transfer c w).1.db
  refund :
      (w : World) (tx : Transaction) (saga_id : Str)
      → All IsLine tx.entries
      → Commits base w.db
      → Commits base (post_compensation tx saga_id w).1.db

-- Their writes are interleaved writes.
pub Commits-Interleaved : {base db : Db} → Commits base db → Interleaved base db
Commits-Interleaved begin = start
Commits-Interleaved (aside w c a r) = write w c (Commits-Interleaved r)
Commits-Interleaved (progress w id state reason r) =
    write w (saga_state id state (with_reason reason)) (Commits-Interleaved r)
Commits-Interleaved {base} (transfer w c lines a r) =
    (post_transfer-Keeps (Interleaved-system base).transfers c lines a).at w (Commits-Interleaved r)
Commits-Interleaved {base} (refund w tx saga_id lines r) =
    (post_compensation-Keeps (Interleaved-system base).transfers tx saga_id lines).at w
      (Commits-Interleaved r)

-- The saga of this identifier is stored, and has this transaction.
abbrev pub HasRow : Str → Str → List SagaRecord → Type 0
HasRow id tx rows =
    (s : SagaRecord) × (find (λ x. str_eq x.id id) rows ≡ some s) × (s.transaction_id ≡ tx)

abbrev pub HasSaga : Str → Str → Db → Type 0
HasSaga id tx db = HasRow id tx db.sagas

-- The last step of an update of a saga.
abbrev saga_write : Str → SagaState → SagaFields → ℕ → M (Unit {0})
saga_write id state fields now =
    modify_db (λ db. record db { sagas = update_sagas (updated_saga state fields now) id db.sagas })

-- The steps of an insert of a saga.
abbrev saga_taken : SagaRecord → World → Bool
saga_taken c w =
    exists (λ s. str_eq s.id c.id || str_eq s.idempotency_key c.idempotency_key) w.db.sagas

abbrev add_saga : SagaRecord → M (Unit {0})
add_saga c = modify_db (λ db. record db { sagas = db.sagas ++ c ∷ [] })

abbrev add_unless : SagaRecord → Bool → M (Unit {0})
add_unless c taken = when taken plain >> add_saga c

module _ (key tx : Str) where
  HasRow-behind : (rows more : List SagaRecord) → HasRow key tx rows → HasRow key tx (rows ++ more)
  HasRow-behind [] more (s, f, t) = cc
  HasRow-behind (r ∷ rows) more (s, f, t) = elim (Bool-cases (str_eq r.id key)) [
    | inl e ↦ (s, rw e (ground (arith, e)), t)
    | inr e ↦
        let (s', f', t') = HasRow-behind rows more (s, ground (arith, e), t) in (s', rw e f', t')
  ]

  -- An update of another saga, or one that carries no transaction.
  HasRow-updated :
      (state : SagaState) (fields : SagaFields) (now : ℕ) (id : Str) (rows : List SagaRecord)
      → (str_eq key id ≡ false) ⊎ (fields.transaction_id ≡ [])
      → HasRow key tx rows
      → HasRow key tx (update_sagas (updated_saga state fields now) id rows)
  unfolding update_sagas
  HasRow-updated state fields now id [] c (s, f, t) = cc
  HasRow-updated state fields now id (r ∷ rows) c (s, f, t) = elim (Bool-cases (str_eq r.id key)) [
    | inr e ↦
        let (s', f', t') = HasRow-updated state fields now id rows c (s, ground (arith, e), t) in
        elim (Bool-cases (str_eq r.id id)) [
          | inl q ↦ (s', rw q (rw e f'), t')
          | inr q ↦ (s', rw q (rw e f'), t')
        ]
    | inl e ↦
        let same : r.transaction_id ≡ tx = ground (arith, e, f, t) in
        elim (Bool-cases (str_eq r.id id)) [
          | inl q ↦ elim c [
            | inr none ↦ (updated_saga state fields now r, rw q (rw e refl), rw none same)
            | inl other ↦ cc (other, subst (λ k. str_eq k id ≡ true) ((str_eq_iff r.id key).0 e) q)
          ]
          | inr q ↦ (r, rw q (rw e refl), same)
        ]
  ]

  -- Whatever leaves the sagas alone.
  HasSaga-same {ℓ} :
      {A : Type ℓ} (m : M A)
      → ((w : World) → (m w).1.db.sagas ≡ w.db.sagas)
      → Keeps (HasSaga key tx) m
  HasSaga-same m same = record { at = λ w h. subst (HasRow key tx) (sym (same w)) h }

  settlement-Keeps : (s : SettlementRecord) → Keeps (HasSaga key tx) (insert_settlement s)
  unfolding insert_settlement
  settlement-Keeps s = HasSaga-same _ λ w. ground (arith, call-db w)

  event-Keeps : (e : Event) → Keeps (HasSaga key tx) (insert_event e)
  unfolding insert_event
  event-Keeps e = HasSaga-same _ λ w. ground (arith, call_annotated-db w)

  events-Keeps : (es : List Event) → Keeps (HasSaga key tx) (insert_events es)
  unfolding insert_events
  events-Keeps [] = Keeps-pure tt
  events-Keeps (e ∷ es) = Keeps-bind (insert_event e) _ (event-Keeps e) λ _. events-Keeps es

  aside-Keeps : (c : Write) → IsAside c → Keeps (HasSaga key tx) (perform c)
  unfolding update_settlement_status count_attempt create_account log_entry mark_published_in_tx
      mark_failed_in_tx
  aside-Keeps (saga s) a = absurd a
  aside-Keeps (saga_state id state fields) a = absurd a
  aside-Keeps (event e) a = event-Keeps e
  aside-Keeps (settlement s q) a = settlement-Keeps s
  aside-Keeps (settlement_status id status reason) a = HasSaga-same _ λ w. ground (arith, call-db w)
  aside-Keeps (attempt id) a = HasSaga-same _ λ w. ground (arith, call-db w)
  aside-Keeps (account x) a = HasSaga-same _ λ w. ground (arith, call-db w, call_annotated-db w)
  aside-Keeps (log e) a = HasSaga-same _ λ w. ground (arith, call-db w, call_annotated-db w)
  aside-Keeps (published id) a = HasSaga-same _ λ w. ground (arith, call-db w, call_annotated-db w)
  aside-Keeps (failed id) a = HasSaga-same _ λ w. ground (arith, call-db w, call_annotated-db w)

  pub update-Keeps :
      (id : Str) (state : SagaState) (fields : SagaFields)
      → (str_eq key id ≡ false) ⊎ (fields.transaction_id ≡ [])
      → Keeps (HasSaga key tx) (update_saga_state id state fields)
  unfolding update_saga_state
  update-Keeps id state fields c = Keeps-bind call _ (Keeps-same _ call-db) λ _.
      Keeps-bind (gets (λ w. w.now)) (saga_write id state fields) (Keeps-same _ (λ w. refl))
        λ now. record { at = λ w h. HasRow-updated state fields now id w.db.sagas c h }

  posting-Keeps : (j : Transaction) → Keeps (HasSaga key tx) (post_transaction_in_tx j)
  unfolding insert_header insert_entry
  posting-Keeps j =
      post_transaction_in_tx-Keeps j (HasSaga-same _ λ w. ground (arith, call_annotated-db w))
        (λ e. HasSaga-same _ λ w. ground (arith, call_annotated-db w))

  pub refund-Keeps :
      (j : Transaction) (saga_id : Str) → Keeps (HasSaga key tx) (post_compensation j saga_id)
  unfolding post_compensation
  refund-Keeps j saga_id = KeepsOk-in_tx call_annotated _ call_annotated-db (
      Keeps-KeepsOk (
        Keeps-bind (post_transaction_in_tx j) _ (posting-Keeps j)
          (λ _. update-Keeps saga_id _ _ (inr refl))))

  HasRow-exists :
      (other : Str) (rows : List SagaRecord)
      → HasRow key tx rows
      → exists (λ s. str_eq s.id key || str_eq s.idempotency_key other) rows ≡ true
  HasRow-exists other [] (s, f, t) = cc
  HasRow-exists other (r ∷ rows) (s, f, t) = elim (Bool-cases (str_eq r.id key)) [
    | inl e ↦ rw e refl
    | inr e ↦ ground (arith, e, f, t, HasRow-exists other rows (s, ground (arith, e), t))
  ]

  -- A saga is added behind, so the first one of this identifier stays the first.
  insert-Keeps : (c : SagaRecord) → Keeps (HasSaga key tx) (insert_saga c)
  unfolding insert_saga
  insert-Keeps c = Keeps-bind call _ (Keeps-same _ call-db) λ _.
      Keeps-bind (gets (saga_taken c)) (add_unless c) (Keeps-same _ (λ w. refl)) λ taken.
        Keeps-bind (when taken plain) (λ _. add_saga c) (Keeps-when taken plain)
          λ _. record { at = λ w h. HasRow-behind w.db.sagas (c ∷ []) h }

  -- A second one is refused.
  insert_refused :
      (c : SagaRecord) (w : World) → c.id ≡ key → HasSaga key tx w.db → (insert_saga c w).0 ≢ ok tt
  unfolding insert_saga
  insert_refused c w e h =
      ground (arith, call-db w, e, HasRow-exists c.idempotency_key w.db.sagas h)

  transfer_writes-KeepsOk : (c : TransferCommit) → KeepsOk (HasSaga key tx) (transfer_writes c)
  unfolding transfer_writes
  transfer_writes-KeepsOk c = elim (Bool-cases (str_eq key c.saga.id)) [
    | inl e ↦ record {
      at = λ w q h.
          let (u, inserted, step) = bind_ok (insert_saga c.saga) _ w q in
          absurd (insert_refused c.saga w (sym ((str_eq_iff key c.saga.id).0 e)) h inserted);
    }
    | inr e ↦ Keeps-KeepsOk (
        Keeps-bind (insert_saga c.saga) _ (insert-Keeps c.saga) λ _.
          Keeps-bind (post_transaction_in_tx c.ledger_tx) _ (posting-Keeps c.ledger_tx) λ _.
            Keeps-bind (insert_events c.events) _ (events-Keeps c.events) λ _.
              Keeps-bind (insert_settlement c.settlement) _ (settlement-Keeps c.settlement)
                λ _. update-Keeps c.saga.id _ _ (inl e))
  ]

  -- Once stored, a saga keeps its identifier and its transaction.
  pub Commits-HasSaga : {base db : Db} → Commits base db → HasSaga key tx base → HasSaga key tx db
  unfolding post_transfer
  Commits-HasSaga begin h = h
  Commits-HasSaga (aside w c a r) h = (aside-Keeps c a).at w (Commits-HasSaga r h)
  Commits-HasSaga (progress w id state reason r) h =
      (update-Keeps id state (with_reason reason) (inr refl)).at w (Commits-HasSaga r h)
  Commits-HasSaga (transfer w c lines a r) h =
      (KeepsOk-in_tx call_annotated _ call_annotated-db (transfer_writes-KeepsOk c)).at w
        (Commits-HasSaga r h)
  Commits-HasSaga (refund w j saga_id lines r) h =
      (refund-Keeps j saga_id).at w (Commits-HasSaga r h)
