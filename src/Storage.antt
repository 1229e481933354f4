-- ===== src/Storage.antt =====
-- The stored state that the adapters share (the tables of migrations/ and the Redis keys), and the
-- monad of the calls on it.
pub mod Monad
pub mod Text
pub mod Calls
pub mod Keeps
pub mod Idles
pub mod Queue
pub mod Marks
use banking_plateform.Base.{ℕ, List, Str}
use banking_plateform.Ledger.Account.{Account}
use banking_plateform.Ledger.Entry.{Entry}
use banking_plateform.Platform.Audit.{AuditEntry}
use banking_plateform.Outbox.Event.{Event}
use banking_plateform.Transfer.Saga.{SagaRecord, SettlementRecord}
use banking_plateform.Idempotency.Record.{Record}

-- A row of `ledger_transactions`.
pub record TransactionRow : Type 0 where
  pub id : Str
  pub description : Str
  pub recorded_at : ℕ

-- A row of `ledger_entries`; `entry` holds the columns id, account_id, side, amount and currency.
pub record EntryRow : Type 0 where
  pub entry : Entry
  pub transaction_id : Str
  pub created_at : ℕ

-- The tables, each in the order of insertion.
pub record Db : Type 0 where
  pub accounts : List Account
  pub transactions : List TransactionRow
  pub entries : List EntryRow
  pub outbox : List Event
  pub sagas : List SagaRecord
  pub settlements : List SettlementRecord
  pub audit : List AuditEntry

abbrev pub Cache : Type 0
Cache = List (Str × Record)

-- What the surroundings do at the next call: nothing, make it fail, or change the Redis records
-- first (other clients, and keys that expire).
pub data Signal : Type 0 where
  fine fault : Signal
  rival : Cache → Signal

-- The stored state, the clock, and what the surroundings will do. When the script is used up they do
-- nothing more.
pub record World : Type 0 where
  pub db : Db
  pub cache : Cache
  pub velocity : List (Str × ℕ)
  pub now : ℕ
  pub script : List Signal
