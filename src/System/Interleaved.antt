-- ===== src/System/Interleaved.antt =====
-- The writes of any number of clients and workers, interleaved: each write is a step of its own,
-- with arguments that any client or worker may have, and reads in between show nothing new.
pub mod Once
use banking_plateform.Base.{◌≡◌, refl, ℕ, List, Str, All}
use banking_plateform.Ledger.Account.{Account}
use banking_plateform.Ledger.Entry.{IsLine}
use banking_plateform.Ledger.Repository.{create_account, post_transaction_in_tx}
use banking_plateform.Ledger.Transaction.{Transaction}
use banking_plateform.Outbox.Event.{Event}
use banking_plateform.Outbox.Repository.{insert_event, mark_published_in_tx, mark_failed_in_tx}
use banking_plateform.Platform.Audit.{AuditEntry}
use banking_plateform.Platform.Log.{log_entry}
use banking_plateform.Settlement.Processor.Sound.{IsStoredAmount}
use banking_plateform.Shared.Errors.{ok}
use banking_plateform.Storage.{Db, World}
use banking_plateform.Storage.Monad.{M}
use banking_plateform.System.Bank.{IsBank}
use banking_plateform.System.History.{IsLater, IsLater-refl}
use banking_plateform.System.History.Writes.{IsLater-system}
use banking_plateform.System.Reachable.{IsBank-system, seeded-IsBank}
use banking_plateform.System.Seed.{seeded}
use banking_plateform.System.Steps.{SystemWrites, SystemWrites-Both, Reach-Keeps}
use banking_plateform.System.Worlds.{Reach}
use banking_plateform.Transfer.Saga.{SagaState, SagaRecord, SettlementStatus, SettlementRecord}
use banking_plateform.Transfer.SagaStore.{
  SagaFields, insert_saga, insert_settlement, update_saga_state, update_settlement_status,
  count_attempt,
}
use banking_plateform.Transfer.Writes.{Writes}

-- A write, with its arguments.
pub data Write : Type 0 where
  saga : SagaRecord → Write
  event : Event → Write
  settlement : (s : SettlementRecord) → IsStoredAmount s → Write
  saga_state : Str → SagaState → SagaFields → Write
  settlement_status : Str → SettlementStatus → Str → Write
  attempt : Str → Write
  account : Account → Write
  log : AuditEntry → Write
  published : Str → Write
  failed : Str → Write

abbrev pub perform : Write → M (Unit {0})
perform (saga s) = insert_saga s
perform (event e) = insert_event e
perform (settlement s _) = insert_settlement s
perform (saga_state id state fields) = update_saga_state id state fields
perform (settlement_status id status reason) = update_settlement_status id status reason
perform (attempt id) = count_attempt id
perform (account a) = create_account a
perform (log e) = log_entry e
perform (published id) = mark_published_in_tx id
perform (failed id) = mark_failed_in_tx id

-- Sequences of writes. The surroundings of each are any world over the tables. A journal that is
-- posted is one write, since its row locks keep other postings out; one that fails is rolled back.
pub data Interleaved (base : Db) : Db → Type 0 where
  start : Interleaved base base
  write : (w : World) (c : Write) → Interleaved base w.db → Interleaved base (perform c w).1.db
  posting :
      (w : World) (tx : Transaction)
      → All IsLine tx.entries
      → (post_transaction_in_tx tx w).0 ≡ ok tt
      → Interleaved base w.db
      → Interleaved base (post_transaction_in_tx tx w).1.db

module _ {P : Db → Type 0} (k : SystemWrites P) where
  perform-Keeps : (c : Write) (w : World) → P w.db → P (perform c w).1.db
  perform-Keeps (saga s) = (k.transfers.saga s).at
  perform-Keeps (event e) = (k.transfers.event e).at
  perform-Keeps (settlement s a) = (k.transfers.settlement s a).at
  perform-Keeps (saga_state id state fields) = (k.transfers.saga_state id state fields).at
  perform-Keeps (settlement_status id status reason) =
      (k.transfers.settlement_status id status reason).at
  perform-Keeps (attempt id) = (k.transfers.attempt id).at
  perform-Keeps (account a) = (k.account a).at
  perform-Keeps (log e) = (k.log e).at
  perform-Keeps (published id) = (k.published id).at
  perform-Keeps (failed id) = (k.failed id).at

  pub Interleaved-Keeps : {base db : Db} → P base → Interleaved base db → P db
  Interleaved-Keeps h start = h
  Interleaved-Keeps h (write w c r) = perform-Keeps c w (Interleaved-Keeps h r)
  Interleaved-Keeps h (posting w tx lines e r) =
      (k.transfers.posting tx lines).at w e (Interleaved-Keeps h r)

-- To be reached by interleaved writes is itself kept by every write.
pub Interleaved-system : (base : Db) → SystemWrites (Interleaved base)
Interleaved-system base = record {
  transfers = record {
    saga = λ s. record { at = λ w h. write w (saga s) h };
    event = λ e. record { at = λ w h. write w (event e) h };
    settlement = λ s a. record { at = λ w h. write w (settlement s a) h };
    allowed = λ s r. r;
    saga_state = λ id state fields. record { at = λ w h. write w (saga_state id state fields) h };
    settlement_status =
        λ id status reason. record { at = λ w h. write w (settlement_status id status reason) h };
    attempt = λ id. record { at = λ w h. write w (attempt id) h };
    posting = λ tx lines. record { at = λ w e h. posting w tx lines e h };
  };
  account = λ a. record { at = λ w h. write w (account a) h };
  log = λ e. record { at = λ w h. write w (log e) h };
  published = λ id. record { at = λ w h. write w (published id) h };
  failed = λ id. record { at = λ w h. write w (failed id) h };
}

-- However the writes of any number of clients and workers are interleaved on the seeded database,
-- each with arguments that one of them may have (journals of well-formed lines, settlements over
-- amounts within int64): the books tie, no account is overdrawn, every stored line is well formed
-- and of a stored account, and the amounts of the settlements are within int64. A write inside a
-- database transaction may stand alone, which allows more than the database does; a journal is
-- posted in one step.
pub Interleaved-IsBank : (now : ℕ) (db : Db) → Interleaved (seeded now) db → IsBank db
Interleaved-IsBank now db r = Interleaved-Keeps IsBank-system (seeded-IsBank now) r

pub Interleaved-IsLater : {base db : Db} → Interleaved base db → IsLater base db
Interleaved-IsLater {base} r = Interleaved-Keeps (IsLater-system base) (IsLater-refl base) r
