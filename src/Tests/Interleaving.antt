-- ===== src/Tests/Interleaving.antt =====
-- Interleaved clients and workers at concrete calls.
use banking_plateform.Transfer.SagaStore.{
  update_saga_state, insert_settlement, insert_saga, no_fields,
}
use banking_plateform.Transfer.Coordinator.{
  insert_events, transfer_writes, post_transfer, post_compensation,
}
use banking_plateform.Ledger.Repository.{
  insert_entry, insert_entries, insert_header, load_entry, load_entries, list_entries_by_account,
  check_funds, validate_sufficient_funds, unique_account_ids, load_accounts, lock_accounts,
  post_transaction_in_tx,
}
use banking_plateform.Shared.Money.{safe_sub, sub, halalas_from_minor_units, cmp, safe_add, add}
use banking_plateform.Ledger.Account.{is_debit_normal, new_account}
use banking_plateform.Ledger.Balance.{post_to, balance_from_entries}
use banking_plateform.Ledger.Entry.{new_entry}
use banking_plateform.Storage.Text.{str_ltb, unique}
use banking_plateform.Base.{insert_by, order_by, str_eq, ◌≢◌, refl, text}
use banking_plateform.Base.Int.{◌+ℤ◌, ◌-ℤ◌}
use banking_plateform.Shared.Int64.{wrap64}
use banking_plateform.Ledger.Transaction.{sum_by_side, validate_balanced, is_balanced}
use banking_plateform.Storage.Monad.{call, call_annotated, in_tx}
use banking_plateform.Shared.Errors.{ok}
use banking_plateform.Storage.{World}
use banking_plateform.System.Bank.{IsBank}
use banking_plateform.System.Interleaved.{
  start, write, perform, account, settlement_status, saga_state, Interleaved-IsBank,
}
use banking_plateform.System.Interleaved.Once.{one_commit_per_key, one_refund_per_journal}
use banking_plateform.Tests.Books.{alice, quiet_world}
use banking_plateform.Tests.Calls.{rent, rent_commit}
use banking_plateform.Tests.Systems.{seeded_world}
use banking_plateform.Transfer.Saga.{SettlementStatus, completed}

-- One client opens an account, and a worker decides a settlement.
abbrev opened_world : World
opened_world = (perform (account alice) seeded_world).1

Interleaved-IsBank_example :
    IsBank
      (perform
        (settlement_status (text "stl-1") SettlementStatus.failed (text "R01"))
        opened_world).1.db
Interleaved-IsBank_example = Interleaved-IsBank 1 _ (
    write opened_world (settlement_status (text "stl-1") SettlementStatus.failed (text "R01"))
      (write seeded_world (account alice) start))

abbrev committed_world : World
committed_world = (post_transfer rent_commit quiet_world).1

-- A worker completes the saga before the second commit.
abbrev completed_world : World
completed_world = (perform (saga_state (text "saga-1") completed no_fields) committed_world).1

one_commit_per_key_example :
    (post_transfer
      (record rent_commit { ledger_tx = record rent { id = text "tx-2" } })
      completed_world).0
    ≢ ok tt
unfolding post_transfer in_tx call_annotated call transfer_writes insert_saga post_transaction_in_tx
    is_balanced validate_balanced sum_by_side add str_eq safe_add wrap64 ◌-ℤ◌ cmp post_compensation
    ◌+ℤ◌ lock_accounts load_accounts order_by unique_account_ids unique insert_by str_ltb
    new_account validate_sufficient_funds check_funds list_entries_by_account load_entries
    load_entry halalas_from_minor_units new_entry balance_from_entries post_to is_debit_normal sub
    safe_sub insert_header insert_entries insert_entry insert_events insert_settlement
    update_saga_state
one_commit_per_key_example =
    one_commit_per_key quiet_world completed_world rent_commit
      (record rent_commit { ledger_tx = record rent { id = text "tx-2" } }) refl
      (write committed_world (saga_state (text "saga-1") completed no_fields) start) refl

abbrev reversed_world : World
reversed_world = (post_compensation rent (text "saga-1") quiet_world).1

one_refund_per_journal_example :
    (post_compensation rent
      (text "saga-1")
      (perform
        (settlement_status (text "stl-1") SettlementStatus.failed (text "R01"))
        reversed_world).1).0
    ≢ ok tt
unfolding post_compensation in_tx call_annotated call post_transaction_in_tx is_balanced
    validate_balanced sum_by_side add str_eq safe_add wrap64 ◌-ℤ◌ cmp ◌+ℤ◌ lock_accounts
    load_accounts order_by unique_account_ids unique insert_by str_ltb new_account
    validate_sufficient_funds check_funds list_entries_by_account load_entries load_entry
    halalas_from_minor_units new_entry balance_from_entries post_to is_debit_normal sub safe_sub
    insert_header insert_entries insert_entry update_saga_state
one_refund_per_journal_example =
    one_refund_per_journal quiet_world
      (perform (settlement_status (text "stl-1") SettlementStatus.failed (text "R01"))
        reversed_world).1
      rent rent (text "saga-1") (text "saga-1") refl
      (write reversed_world (settlement_status (text "stl-1") SettlementStatus.failed (text "R01"))
        start)
      refl
