-- ===== src/Ledger/Repository.antt =====
-- internal/ledger/adapters/postgres: accounts and the journal in storage (repository.go), and the
-- row locks and balance checks before a posting (locking.go).
pub mod Reading
pub mod Posting
pub mod Posted
pub mod Locks
pub mod Invariant
pub mod Books
pub mod Frame
pub mod Opening
use banking_plateform.Base.{
  ℕ, ◌+◌, ◌==◌, Bool, true, false, not, ◌&&◌, ◌||◌, List, [], ◌∷◌, ◌++◌, map, Str, str_eq, length,
  find, keep, exists, order_by, ltb, Option, none, some, if◌then◌else◌,
}
use banking_plateform.Base.Int.{ℤ, pos, ltb_ℤ, ◌+ℤ◌}
use banking_plateform.Shared.Errors.{
  Result, ok, err, domain, plain, annotated, conflict, not_found, validation, insufficient_funds,
  unbalanced_transaction, fail_if,
}
use banking_plateform.Shared.Errors as Errors
use banking_plateform.Shared.Int64.{min_int64, max_int64}
use banking_plateform.Shared.Money.{Money, halalas_from_minor_units, is_negative, is_positive}
use banking_plateform.Ledger.Account.{Account, new_account, is_valid_type}
use banking_plateform.Ledger.Entry.{Entry, new_entry, is_debit, is_credit, is_valid_side}
use banking_plateform.Ledger.Transaction.{Transaction, is_balanced}
use banking_plateform.Ledger.Balance.{balance_from_entries, apply_entries}
use banking_plateform.Storage.{Db, World, TransactionRow, EntryRow}
use banking_plateform.Storage.Text.{str_ltb, elem, unique}
use banking_plateform.Storage.Monad.{
  M, pure, raise, lift, gets, when, modify_db, call_annotated, in_tx, ◌>>=◌, ◌>>◌,
}

-- `INSERT INTO ledger_accounts`: the primary key, then the CHECK on the type.
unfoldable pub create_account : Account → M (Unit {0})
create_account account = do
  call_annotated
  taken ← gets (λ w. exists (λ a. str_eq a.id account.id) w.db.accounts)
  when taken (domain conflict)
  when (not (is_valid_type account.typ)) (annotated plain)
  modify_db (λ db. record db { accounts = db.accounts ++ account ∷ [] })

abbrev pub loaded_account : Option Account → Result Account
loaded_account none = err (domain not_found)
loaded_account (some a) = new_account a.id a.typ a.name

unfoldable pub get_account : Str → M Account
get_account id = do
  call_annotated
  row ← gets (λ w. find (λ a. str_eq a.id id) w.db.accounts)
  lift (loaded_account row)

-- The loop over the locked rows.
unfoldable pub load_accounts : List Account → Result (List Account)
load_accounts [] = ok []
load_accounts (a ∷ rows) =
    let more = load_accounts rows in
    Errors.◌>>=◌ (new_account a.id a.typ a.name) λ b. Errors.◌>>=◌ more λ bs. ok (b ∷ bs)

abbrev pub by_id : Account → Account → Bool
by_id a b = str_ltb a.id b.id

-- `SELECT ... WHERE id = ANY($1) ORDER BY id FOR UPDATE`
abbrev pub locked_rows : List Str → Db → List Account
locked_rows ids db = order_by by_id (keep (λ a. elem a.id ids) db.accounts)

unfoldable pub lock_accounts : List Str → M (List Account)
lock_accounts ids = do
  call_annotated
  rows ← gets (λ w. locked_rows ids w.db)
  accounts ← lift (load_accounts rows)
  when (not (length (unique (map (λ a. a.id) accounts)) == length ids)) (domain validation)
  pure accounts

unfoldable pub unique_account_ids : Transaction → List Str
unique_account_ids tx = order_by str_ltb (unique (map (λ e. e.account_id) tx.entries))

abbrev pub by_age : EntryRow → EntryRow → Bool
by_age a b =
    ltb a.created_at b.created_at || (a.created_at == b.created_at && str_ltb a.entry.id b.entry.id)

-- `SELECT ... FROM ledger_entries WHERE account_id = $1 ORDER BY created_at ASC, id ASC`
abbrev pub account_rows : Str → Db → List EntryRow
account_rows id db = order_by by_age (keep (λ r. str_eq r.entry.account_id id) db.entries)

-- One scanned row, through the constructors of the domain.
unfoldable pub load_entry : EntryRow → Result Entry
load_entry r =
    Errors.◌>>=◌ (halalas_from_minor_units r.entry.amount.halalas r.entry.amount.currency)
      λ amount. new_entry r.entry.id r.entry.account_id r.entry.side amount

unfoldable pub load_entries : List EntryRow → Result (List Entry)
load_entries [] = ok []
load_entries (r ∷ rows) =
    let more = load_entries rows in
    Errors.◌>>=◌ (load_entry r) λ e. Errors.◌>>=◌ more λ es. ok (e ∷ es)

-- `ListEntriesByAccount`, and `listEntriesByAccountTx` under the locks.
unfoldable pub list_entries_by_account : Str → M (List Entry)
list_entries_by_account id = do
  call_annotated
  rows ← gets (λ w. account_rows id w.db)
  lift (load_entries rows)

unfoldable pub get_balance : Account → M Money
get_balance account = do
  entries ← list_entries_by_account account.id
  lift (balance_from_entries account entries)

-- The body of the loop of `validateSufficientFunds`.
unfoldable pub check_funds : Transaction → Account → M (Unit {0})
check_funds tx account = do
  existing ← list_entries_by_account account.id
  current ← lift (balance_from_entries account existing)
  projected ← lift (apply_entries account current tx.entries)
  when (is_negative projected) (domain insufficient_funds)

unfoldable pub validate_sufficient_funds : Transaction → List Account → M (Unit {0})
validate_sufficient_funds tx [] = pure tt
validate_sufficient_funds tx (a ∷ accounts) =
    check_funds tx a >>= λ _. validate_sufficient_funds tx accounts

abbrev pub entry_row : Transaction → ℕ → Entry → EntryRow
entry_row tx now e = record { entry = e; transaction_id = tx.id; created_at = now }

-- `INSERT INTO ledger_entries`: the primary key, the CHECKs, the foreign key on the account.
unfoldable pub insert_entry : Transaction → Entry → M (Unit {0})
insert_entry tx e = do
  call_annotated
  taken ← gets (λ w. exists (λ r. str_eq r.entry.id e.id) w.db.entries)
  when taken (domain conflict)
  when (not (is_positive e.amount) || not (is_valid_side e.side)) (annotated plain)
  known ← gets (λ w. exists (λ a. str_eq a.id e.account_id) w.db.accounts)
  when (not known) (domain validation)
  now ← gets (λ w. w.now)
  modify_db (λ db. record db { entries = db.entries ++ entry_row tx now e ∷ [] })

unfoldable pub insert_entries : Transaction → List Entry → M (Unit {0})
insert_entries tx [] = pure tt
insert_entries tx (e ∷ es) = insert_entry tx e >>= λ _. insert_entries tx es

-- `INSERT INTO ledger_transactions`
unfoldable pub insert_header : Transaction → M (Unit {0})
insert_header tx = do
  call_annotated
  taken ← gets (λ w. exists (λ t. str_eq t.id tx.id) w.db.transactions)
  when taken (domain conflict)
  let row : TransactionRow = record {
    id = tx.id;
    description = tx.description;
    recorded_at = tx.recorded_at;
  }
  modify_db (λ db. record db { transactions = db.transactions ++ row ∷ [] })

unfoldable pub post_transaction_in_tx : Transaction → M (Unit {0})
post_transaction_in_tx tx = do
  when (not (is_balanced tx)) (domain unbalanced_transaction)
  accounts ← lock_accounts (unique_account_ids tx)
  validate_sufficient_funds tx accounts
  insert_header tx
  insert_entries tx tx.entries

unfoldable pub post_transaction : Transaction → M (Unit {0})
post_transaction tx = in_tx call_annotated (post_transaction_in_tx tx)

-- The two SUMs of `VerifyGlobalLedgerBalanced`, over numeric.
unfoldable pub stored_total : (Entry → Bool) → List EntryRow → ℤ
stored_total on_side [] = pos 0
stored_total on_side (r ∷ rows) =
    (if on_side r.entry then r.entry.amount.halalas else pos 0) +ℤ stored_total on_side rows

abbrev pub outside_int64 : ℤ → Bool
outside_int64 z = ltb_ℤ z min_int64 || ltb_ℤ max_int64 z

-- A sum that does not fit the scanned int64 is an error of the driver.
unfoldable pub verify_global_ledger_balanced : M (Unit {0})
verify_global_ledger_balanced = do
  call_annotated
  debits ← gets (λ w. stored_total (λ e. is_debit e.side) w.db.entries)
  credits ← gets (λ w. stored_total (λ e. is_credit e.side) w.db.entries)
  when (outside_int64 debits || outside_int64 credits) (annotated plain)
  when (ltb_ℤ debits credits || ltb_ℤ credits debits) (domain unbalanced_transaction)
