-- ===== src/Ledger/Repository/Frame.antt =====
-- A posting writes by its inserts only: what those keep, it keeps.
use banking_plateform.Base.{
  ◌≡◌, refl, List, [], ◌∷◌, ◌++◌, Str, str_eq, true, All, All-append, exists, arith,
}
use banking_plateform.Ledger.Account.{Account}
use banking_plateform.Ledger.Entry.{Entry}
use banking_plateform.Ledger.Transaction.{Transaction}
use banking_plateform.Ledger.Repository.{
  lock_accounts, check_funds, validate_sufficient_funds, insert_header, insert_entry,
  insert_entries, post_transaction_in_tx, entry_row,
}
use banking_plateform.Ledger.Repository.Reading.{list_entries-db}
use banking_plateform.Outbox.Event.{Event}
use banking_plateform.Storage.{Db, World, EntryRow}
use banking_plateform.Storage.Monad.{when}
use banking_plateform.Storage.Calls.{call_annotated-db, call_annotated-now}
use banking_plateform.Storage.Keeps.{Keeps, Keeps-same, Keeps-pure, Keeps-when, Keeps-bind}
use banking_plateform.Transfer.Saga.{SettlementRecord}

pub lock_accounts-db : (ids : List Str) (w : World) → (lock_accounts ids w).1.db ≡ w.db
unfolding lock_accounts
lock_accounts-db ids w = ground (arith, call_annotated-db w)

check_funds-db : (tx : Transaction) (a : Account) (w : World) → (check_funds tx a w).1.db ≡ w.db
unfolding check_funds
check_funds-db tx a w = ground (arith, list_entries-db a.id w)

module _ {P : Db → Type 0} (tx : Transaction) where
  validate-Keeps : (accounts : List Account) → Keeps P (validate_sufficient_funds tx accounts)
  unfolding validate_sufficient_funds
  validate-Keeps [] = Keeps-pure tt
  validate-Keeps (a ∷ accounts) =
      Keeps-bind (check_funds tx a) _ (Keeps-same _ (check_funds-db tx a))
        λ _. validate-Keeps accounts

pub validate-db :
    (tx : Transaction) (accounts : List Account) (w : World)
    → (validate_sufficient_funds tx accounts w).1.db ≡ w.db
validate-db tx accounts w = (validate-Keeps {P = λ db. db ≡ w.db} tx accounts).at w refl

module _ {P : Db → Type 0} (tx : Transaction) (header : Keeps P (insert_header tx))
    (line : (e : Entry) → Keeps P (insert_entry tx e)) where
  pub insert_entries-Keeps : (es : List Entry) → Keeps P (insert_entries tx es)
  unfolding insert_entries
  insert_entries-Keeps [] = Keeps-pure tt
  insert_entries-Keeps (e ∷ es) =
      Keeps-bind (insert_entry tx e) _ (line e) λ _. insert_entries-Keeps es

  pub post_transaction_in_tx-Keeps : Keeps P (post_transaction_in_tx tx)
  unfolding post_transaction_in_tx
  post_transaction_in_tx-Keeps = Keeps-bind (when _ _) _ (Keeps-when _ _) λ _.
      Keeps-bind (lock_accounts _) _ (Keeps-same _ (lock_accounts-db _)) λ accounts.
        Keeps-bind (validate_sufficient_funds tx accounts) _ (validate-Keeps tx accounts)
          λ _. Keeps-bind (insert_header tx) _ header λ _. insert_entries-Keeps tx.entries

-- The tables beside the ledger's.
pub record SameRest (outbox : List Event) (settlements : List SettlementRecord) (db : Db)
    : Type 0 where
  pub outbox_same : db.outbox ≡ outbox
  pub settlements_same : db.settlements ≡ settlements

pub post_transaction_in_tx-SameRest :
    (tx : Transaction) (outbox : List Event) (settlements : List SettlementRecord)
    → Keeps (SameRest outbox settlements) (post_transaction_in_tx tx)
unfolding insert_header insert_entry
post_transaction_in_tx-SameRest tx outbox settlements =
    post_transaction_in_tx-Keeps tx (record { at = λ w h. ground (arith, call_annotated-db w, h) })
      (λ e. record { at = λ w h. ground (arith, call_annotated-db w, h) })

-- Every stored line names a stored account: the foreign key.
abbrev pub IsLinkedTo : List Account → EntryRow → Type 0
IsLinkedTo accounts r = exists (λ a. str_eq a.id r.entry.account_id) accounts ≡ true

abbrev pub IsLinked : Db → Type 0
IsLinked db = All (IsLinkedTo db.accounts) db.entries

IsLinked-snoc :
    (db : Db) (r : EntryRow)
    → exists (λ a. str_eq a.id r.entry.account_id) db.accounts ≡ true
    → IsLinked db
    → IsLinked (record db { entries = db.entries ++ r ∷ [] })
IsLinked-snoc db r e h = All-append (IsLinkedTo db.accounts) db.entries (r ∷ []) h (e, tt)

insert_entry-IsLinked : (tx : Transaction) (e : Entry) → Keeps IsLinked (insert_entry tx e)
unfolding insert_entry
insert_entry-IsLinked tx e = record {
  at = λ w h. ground (
    arith,
    call_annotated-db w,
    call_annotated-now w,
    h,
    IsLinked-snoc w.db (entry_row tx w.now e),
  );
}

pub post_transaction_in_tx-IsLinked :
    (tx : Transaction) → Keeps IsLinked (post_transaction_in_tx tx)
unfolding insert_header
post_transaction_in_tx-IsLinked tx =
    post_transaction_in_tx-Keeps tx (record { at = λ w h. ground (arith, call_annotated-db w, h) })
      (insert_entry-IsLinked tx)
