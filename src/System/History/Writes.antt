-- ===== src/System/History/Writes.antt =====
-- Every write of the system only adds to what is recorded, and so does every run.
use banking_plateform.Base.{◌≡◌, refl, ℕ, List, [], ◌∷◌, ◌++◌, map, Str, arith}
use banking_plateform.Ledger.Account.{Account}
use banking_plateform.Ledger.Entry.{Entry}
use banking_plateform.Ledger.Transaction.{Transaction}
use banking_plateform.Ledger.Repository.{
  create_account, insert_header, insert_entry, insert_entries, entry_row, post_transaction_in_tx,
}
use banking_plateform.Ledger.Repository.Frame.{post_transaction_in_tx-Keeps, insert_entries-Keeps}
use banking_plateform.Outbox.Event.{Event, pending}
use banking_plateform.Outbox.Repository.{
  insert_event, set_status, to_published, to_failed, mark_published_in_tx, mark_failed_in_tx,
}
use banking_plateform.Platform.Audit.{AuditEntry}
use banking_plateform.Platform.Log.{log_entry}
use banking_plateform.Settlement.Processor.Sound.{IsStoredAmount}
use banking_plateform.Storage.{Db, World}
use banking_plateform.Storage.Calls.{call-db, call_annotated-db, call_annotated-now}
use banking_plateform.Storage.Keeps.{Keeps, Keeps-KeepsOk}
use banking_plateform.Storage.Monad.{call}
use banking_plateform.System.Bank.{IsBank}
use banking_plateform.System.History.{
  IsLater, IsLater-refl, Extends-row, terms, command_of, message, with_account, with_header,
  with_line, with_log, with_outbox, with_sagas, with_settlements,
}
use banking_plateform.System.History.Updates.{sagas_updated, settlements_updated, events_updated}
use banking_plateform.System.Reachable.{IsBank-system, reachable-IsBank}
use banking_plateform.System.Seed.{seeded}
use banking_plateform.System.Steps.{SystemWrites, SystemWrites-Both, Reach-Keeps}
use banking_plateform.System.Worlds.{Reach}
use banking_plateform.Transfer.Saga.{SagaRecord, SagaState, SettlementRecord, SettlementStatus}
use banking_plateform.Transfer.SagaStore.{
  SagaFields, insert_saga, insert_settlement, update_sagas, updated_saga, update_saga_state,
  update_settlement_status, count_attempt, update_settlements, with_status, one_more_attempt,
}
use banking_plateform.Transfer.Writes.{Writes}

module _ (base : Db) where
  insert_saga-IsLater : (s : SagaRecord) → Keeps (IsLater base) (insert_saga s)
  unfolding insert_saga
  insert_saga-IsLater s = record {
    at = λ w h. ground (
      arith,
      call-db w,
      h,
      with_sagas h (w.db.sagas ++ s ∷ [])
          (Extends-row command_of (map command_of base.sagas) w.db.sagas s h.sagas),
    );
  }

  update_saga_state-IsLater :
      (id : Str) (state : SagaState) (fields : SagaFields)
      → Keeps (IsLater base) (update_saga_state id state fields)
  unfolding update_saga_state
  update_saga_state-IsLater id state fields = record {
    at = λ w h.
        let f = updated_saga state fields (call w).1.now in
        ground (
          arith,
          call-db w,
          h,
          with_sagas h (update_sagas f id w.db.sagas)
              (rw (sagas_updated f id w.db.sagas (λ s. refl)) h.sagas),
        );
  }

  pub insert_settlement-IsLater :
      (s : SettlementRecord) → Keeps (IsLater base) (insert_settlement s)
  unfolding insert_settlement
  insert_settlement-IsLater s = record {
    at = λ w h. ground (
      arith,
      call-db w,
      h,
      with_settlements h (w.db.settlements ++ s ∷ [])
          (Extends-row terms (map terms base.settlements) w.db.settlements s h.settlements),
    );
  }

  insert_event-IsLater : (e : Event) → Keeps (IsLater base) (insert_event e)
  unfolding insert_event
  insert_event-IsLater e = record {
    at = λ w h.
        let row : Event = record e { status = pending; published_at = 0 } in
        ground (
          arith,
          call_annotated-db w,
          h,
          with_outbox h (w.db.outbox ++ row ∷ [])
              (Extends-row message (map message base.outbox) w.db.outbox row h.outbox),
        );
  }

  -- The update of settlements by a function that leaves their terms alone.
  updated-IsLater :
      (f : SettlementRecord → SettlementRecord) (id : Str) (db : Db)
      → ((s : SettlementRecord) → terms (f s) ≡ terms s)
      → IsLater base db
      → IsLater base (record db { settlements = update_settlements f id db.settlements })
  updated-IsLater f id db same h =
      with_settlements h (update_settlements f id db.settlements)
        (rw (settlements_updated f id db.settlements same) h.settlements)

  update_settlement_status-IsLater :
      (id : Str) (status : SettlementStatus) (reason : Str)
      → Keeps (IsLater base) (update_settlement_status id status reason)
  unfolding update_settlement_status
  update_settlement_status-IsLater id status reason = record {
    at = λ w h. ground (
      arith,
      call-db w,
      h,
      updated-IsLater (with_status status reason (call w).1.now) id w.db (λ s. refl) h,
    );
  }

  count_attempt-IsLater : (id : Str) → Keeps (IsLater base) (count_attempt id)
  unfolding count_attempt
  count_attempt-IsLater id = record {
    at = λ w h. ground (
      arith,
      call-db w,
      h,
      updated-IsLater (one_more_attempt (call w).1.now) id w.db (λ s. refl) h,
    );
  }

  insert_header-IsLater : (tx : Transaction) → Keeps (IsLater base) (insert_header tx)
  unfolding insert_header
  insert_header-IsLater tx = record {
    at = λ w h. ground (
      arith,
      call_annotated-db w,
      h,
      with_header h
          (record { id = tx.id; description = tx.description; recorded_at = tx.recorded_at }),
    );
  }

  insert_entry-IsLater : (tx : Transaction) (e : Entry) → Keeps (IsLater base) (insert_entry tx e)
  unfolding insert_entry
  insert_entry-IsLater tx e = record {
    at = λ w h.
        ground
          (arith, call_annotated-db w, call_annotated-now w, h, with_line h (entry_row tx w.now e));
  }

  pub posting-IsLater : (tx : Transaction) → Keeps (IsLater base) (post_transaction_in_tx tx)
  posting-IsLater tx =
      post_transaction_in_tx-Keeps tx (insert_header-IsLater tx) (insert_entry-IsLater tx)

  pub insert_entries-IsLater :
      (tx : Transaction) (es : List Entry) → Keeps (IsLater base) (insert_entries tx es)
  insert_entries-IsLater tx es =
      insert_entries-Keeps tx (insert_header-IsLater tx) (insert_entry-IsLater tx) es

  pub IsLater-writes : Writes (IsLater base) IsStoredAmount
  IsLater-writes = record {
    saga = insert_saga-IsLater;
    event = insert_event-IsLater;
    settlement = λ s _. insert_settlement-IsLater s;
    allowed = λ s r. r;
    saga_state = update_saga_state-IsLater;
    settlement_status = update_settlement_status-IsLater;
    attempt = count_attempt-IsLater;
    posting = λ tx _. Keeps-KeepsOk (posting-IsLater tx);
  }

  create_account-IsLater : (a : Account) → Keeps (IsLater base) (create_account a)
  unfolding create_account
  create_account-IsLater a = record {
    at = λ w h. ground (arith, call_annotated-db w, h, with_account h a);
  }

  log_entry-IsLater : (e : AuditEntry) → Keeps (IsLater base) (log_entry e)
  unfolding log_entry
  log_entry-IsLater e = record { at = λ w h. ground (arith, call-db w, h, with_log h e) }

  marked-IsLater :
      (f : Event → Event) (id : Str) (db : Db)
      → ((e : Event) → message (f e) ≡ message e)
      → IsLater base db
      → IsLater base (record db { outbox = set_status f id db.outbox })
  marked-IsLater f id db same h =
      with_outbox h (set_status f id db.outbox) (rw (events_updated f id db.outbox same) h.outbox)

  mark_published-IsLater : (id : Str) → Keeps (IsLater base) (mark_published_in_tx id)
  unfolding mark_published_in_tx
  mark_published-IsLater id = record {
    at = λ w h.
        ground
          (arith, call-db w, h, marked-IsLater (to_published (call w).1.now) id w.db (λ e. refl) h);
  }

  mark_failed-IsLater : (id : Str) → Keeps (IsLater base) (mark_failed_in_tx id)
  unfolding mark_failed_in_tx
  mark_failed-IsLater id = record {
    at = λ w h. ground (arith, call-db w, h, marked-IsLater to_failed id w.db (λ e. refl) h);
  }

module _ (base : Db) where
  pub IsLater-system : SystemWrites (IsLater base)
  IsLater-system = record {
    transfers = IsLater-writes base;
    account = create_account-IsLater base;
    log = log_entry-IsLater base;
    published = mark_published-IsLater base;
    failed = mark_failed-IsLater base;
  }

-- A run from sound books only adds to what is recorded.
pub Reach-IsLater : {Rate : Type 0} {w v : World} → IsBank w.db → Reach Rate w v → IsLater w.db v.db
Reach-IsLater {w} h r =
    (Reach-Keeps (SystemWrites-Both IsBank-system (IsLater-system w.db)) (λ db b. b.first.amounts)
      (record { first = h; second = IsLater-refl w.db }) r).second

-- In every run from the seeded database nothing that a state has recorded is lost or altered later:
-- its accounts, journals, lines and audit rows are, in their order, the first of every later state,
-- and so are its events, sagas and settlements in all columns but those of their progress.
pub history_is_kept :
    {Rate : Type 0} (now : ℕ) (s w v : World)
    → s.db ≡ seeded now
    → Reach Rate s w
    → Reach Rate w v
    → IsLater w.db v.db
history_is_kept now s w v e before after = Reach-IsLater (reachable-IsBank now s w e before) after
