-- ===== src/Tests/Events.antt =====
-- A posted transfer with its event, the books, and a refused repetition.
use banking_plateform.Transfer.SagaStore.{
  insert_saga, insert_settlement, update_saga_state, update_sagas,
}
use banking_plateform.Transfer.Saga.{SagaRecord, SettlementRecord, pending, started}
use banking_plateform.Screening.Fraud.Limits.{check_counts, check_iff}
use banking_plateform.Base.{
  ◌+◌, ◌≡◌, ◌↔◌, refl, [], ◌∷◌, ◌++◌, text, arith, str_eq, order_by, insert_by,
}
use banking_plateform.Base.Int.{◌≤ℤ◌, pos, ◌+ℤ◌, ◌-ℤ◌}
use banking_plateform.Shared.Errors.{ok}
use banking_plateform.Shared.Int64.{wrap64}
use banking_plateform.Shared.Json.{object}
use banking_plateform.Shared.Money.{add, sub, safe_add, safe_sub, cmp, halalas_from_minor_units}
use banking_plateform.Ledger.Account.{new_account, is_valid_type, is_debit_normal}
use banking_plateform.Ledger.Entry.{debit, credit, is_valid_side, new_entry, is_debit, is_credit}
use banking_plateform.Ledger.Transaction.{
  Transaction, is_balanced, validate_balanced, sum_by_side, sum_from,
}
use banking_plateform.Ledger.Transaction.Sums.{side_total}
use banking_plateform.Ledger.Balance.{apply_entries, post_to, balance_from_entries}
use banking_plateform.Ledger.Repository.{
  post_transaction_in_tx, lock_accounts, unique_account_ids, load_accounts,
  validate_sufficient_funds, check_funds, list_entries_by_account, load_entries, load_entry,
  insert_header, insert_entries, insert_entry, verify_global_ledger_balanced,
}
use banking_plateform.Ledger.Repository.Reading.{lines}
use banking_plateform.Ledger.Repository.Books.{verify_global_iff}
use banking_plateform.Outbox.Event.{Event, published}
use banking_plateform.Outbox.Repository.{insert_event}
use banking_plateform.Storage.Monad.{in_tx, call, call_annotated}
use banking_plateform.Storage.Text.{str_ltb, unique}
use banking_plateform.Transfer.Coordinator.{
  TransferCommit, transfer_writes, insert_events, post_transfer,
}
use banking_plateform.Transfer.Coordinator.Published.{waiting, post_transfer_publishes}
use banking_plateform.Screening.Fraud.{Config, check, count_of, velocity_key}
use banking_plateform.Tests.Books.{sar_of, alice, bob, entry_of, bank, bank-IsSound, quiet_world}

abbrev gift : Transaction
gift = record {
  id = text "tx-2";
  description = text "gift";
  entries =
      entry_of (text "tx-2-leg1") alice debit 5 ∷ entry_of (text "tx-2-leg2") bob credit 5 ∷ [];
  recorded_at = 5;
}

abbrev gift_event : Event
gift_event = record {
  id = text "evt-2";
  aggregate_type = text "transfer";
  aggregate_id = text "tx-2";
  event_type = text "transfer.posted";
  payload = object [];
  status = published;
  created_at = 5;
  published_at = 7;
}

abbrev gift_saga : SagaRecord
gift_saga = record {
  id = text "saga-2";
  state = started;
  idempotency_key = text "key-0002";
  command_json = object [];
  transaction_id = text "tx-2";
  settlement_id = text "stl-2";
  failure_reason = [];
  created_at = 5;
  updated_at = 5;
}

abbrev gift_settlement : SettlementRecord
gift_settlement = record {
  id = text "stl-2";
  saga_id = text "saga-2";
  beneficiary_iban = text "SA0380000000608010167519";
  amount_halalas = pos 5;
  currency = text "SAR";
  status = pending;
  attempts = 0;
  last_error = [];
  created_at = 5;
  updated_at = 5;
}

abbrev gift_commit : TransferCommit
gift_commit = record {
  ledger_tx = gift;
  events = gift_event ∷ [];
  saga = gift_saga;
  settlement = gift_settlement;
}

post_transfer_publishes_example :
    (post_transfer gift_commit quiet_world).1.db.outbox ≡ [] ++ waiting (gift_event ∷ [])
unfolding post_transfer transfer_writes in_tx call call_annotated insert_saga post_transaction_in_tx
    is_balanced validate_balanced sum_by_side sum_from add safe_add cmp str_eq wrap64 ◌-ℤ◌ ◌+ℤ◌
    lock_accounts unique_account_ids unique order_by insert_by str_ltb load_accounts new_account
    is_valid_type validate_sufficient_funds check_funds list_entries_by_account load_entries
    load_entry halalas_from_minor_units new_entry is_valid_side balance_from_entries apply_entries
    post_to is_debit_normal insert_header insert_entries insert_entry insert_events insert_event
    insert_settlement update_saga_state update_sagas sub safe_sub
post_transfer_publishes_example = post_transfer_publishes gift_commit quiet_world refl

verify_global_iff_example :
    ((verify_global_ledger_balanced quiet_world).0 ≡ ok tt)
    ↔ (side_total is_debit (lines bank.entries) ≡ side_total is_credit (lines bank.entries))
verify_global_iff_example =
    verify_global_iff quiet_world refl bank-IsSound.stored (omega arith) (omega arith)

abbrev narrow : Config
narrow = record { max_single_halalas = pos 1000; max_hourly_transfers = pos 2 }

check_iff_example :
    ((check narrow (text "acc-alice") (sar_of 900) quiet_world).0 ≡ ok tt)
    ↔ (pos 900 ≤ℤ pos 1000) × (pos (count_of (velocity_key (text "acc-alice")) [] + 1) ≤ℤ pos 2)
check_iff_example = check_iff narrow (text "acc-alice") (sar_of 900) quiet_world refl

check_counts_example :
    count_of
      (velocity_key (text "acc-alice"))
      (check narrow (text "acc-alice") (sar_of 900) quiet_world).1.velocity
    ≡ count_of (velocity_key (text "acc-alice")) [] + 1
check_counts_example = check_counts narrow (text "acc-alice") (sar_of 900) quiet_world refl
