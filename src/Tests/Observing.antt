-- ===== src/Tests/Observing.antt =====
-- What is seen after a transfer on the seeded database.
use banking_plateform.Base.{arith, insert_by, order_by, str_eq, ℕ, ◌≡◌, refl, text}
use banking_plateform.System.Observed.{reachable_reconciles, reachable_balance}
use banking_plateform.Settlement.Reconcile.{reconcile}
use banking_plateform.Shared.Errors.{ok, is_domain_code}
use banking_plateform.Base.Int.{◌-ℤ◌, ◌*ℤ◌, ◌+ℤ◌, pos, ◌≤ℤ◌}
use banking_plateform.Idempotency.Guard.{
  finish, run_holder, acquired_or_wait, acquire, after_get, run,
}
use banking_plateform.Idempotency.Key.{saga_id_from_key, ledger_transaction_id, parse_key}
use banking_plateform.Idempotency.Store.{redis_key, put, complete, try_acquire, cached, get}
use banking_plateform.Ledger.Account.{is_debit_normal, new_account, Account}
use banking_plateform.Ledger.Balance.{post_to, balance_from_entries}
use banking_plateform.Ledger.Balance.Exact.{net, riyals_ℤ}
use banking_plateform.Ledger.Entry.{new_entry}
use banking_plateform.Ledger.Repository.{
  get_balance, insert_entry, insert_entries, insert_header, load_entry, load_entries,
  list_entries_by_account, check_funds, validate_sufficient_funds, unique_account_ids,
  load_accounts, lock_accounts, post_transaction_in_tx, get_account,
}
use banking_plateform.Ledger.Repository.Reading.{lines}
use banking_plateform.Ledger.Transaction.{
  is_balanced, sum_by_side, validate_balanced, new_transaction,
}
use banking_plateform.Outbox.Event.{transfer_posted_id, new_event}
use banking_plateform.Outbox.Repository.{insert_event}
use banking_plateform.Platform.Api.{fraud_config, dependencies, api}
use banking_plateform.Platform.Auth.{usable_keys, new_api_key_validator, api_key_auth}
use banking_plateform.Platform.Config.{parse_csv, getenv, defaults}
use banking_plateform.Platform.Handlers.{command_of_request, create_transfer}
use banking_plateform.Platform.Log.{log_entry}
use banking_plateform.Platform.Middleware.{audited, with_request_id, require_api_key, cors}
use banking_plateform.Platform.Poster.{balance_text, balance_text_for}
use banking_plateform.Platform.Server.{
  transfer_create_handler, handle, target_of, dispatch, mux, serve,
}
use banking_plateform.Platform.Wiring.{api_ports}
use banking_plateform.Screening.Compliance.{is_kyc_approved}
use banking_plateform.Screening.Fraud.{count_of, increment, new_checker, Config}
use banking_plateform.Shared.GoText.{
  format_two, format_int, is_upper, is_digit, has_prefix, remove_all, to_upper, byte_len, parse_int,
  split_on, trim_space,
}
use banking_plateform.Shared.Iban.{
  mod97_step, take_bytes, drop_bytes, mod97_from, iban_mod97, all_valid, normalize_iban,
  parse_sa_iban,
}
use banking_plateform.Shared.Int64.{rem64, quot64, wrap64}
use banking_plateform.Shared.Json.{field}
use banking_plateform.Shared.Money.{
  safe_sub, sub, halalas_from_minor_units, cmp, safe_add, add, sar,
}
use banking_plateform.Shared.Money.Text.{money_string, parse_sar}
use banking_plateform.Storage.Monad.{in_tx, call, call_annotated}
use banking_plateform.Storage.Text.{str_ltb, unique}
use banking_plateform.System.Seed.{seeded}
use banking_plateform.Tests.Systems.{
  settings, outside, transfer_request, seeded_world, posted_world,
}
use banking_plateform.Transfer.Codec.{encode_transfer_result, decode_transfer_result}
use banking_plateform.Transfer.Command.{
  transfer_posted_event, entry_id, command_transaction_id, TransferResult,
}
use banking_plateform.Transfer.Coordinator.{insert_events, transfer_writes, post_transfer}
use banking_plateform.Transfer.Saga.{
  settlement_status_text, saga_state_text, settlement_status_of, saga_state_of,
}
use banking_plateform.Transfer.SagaStore.{update_saga_state, insert_settlement, insert_saga}
use banking_plateform.Transfer.Service.{
  settlement_id_of, commit_of, posted_result, transfer_journal, post, check_accounts, screen,
  run_saga, execute,
}
use banking_plateform.Platform.Auth as Auth
use banking_plateform.Transfer.Command as Command
use banking_plateform.Screening.Fraud as Fraud
use banking_plateform.Screening.Compliance as Compliance
use banking_plateform.System.Worlds as Worlds

reachable_balance_example :
    (a : Account) × (a.id ≡ text "wallet-bob")
    × (text "25.50" ≡ money_string (riyals_ℤ (net a (lines posted_world.db.entries))))
    × (pos 0 ≤ℤ net a (lines posted_world.db.entries))
unfolding create_transfer command_of_request parse_sar trim_space field split_on parse_int byte_len
    sar execute Command.validate parse_key wrap64 ◌+ℤ◌ ◌*ℤ◌ parse_sa_iban api_ports normalize_iban
    to_upper remove_all has_prefix all_valid is_digit is_upper iban_mod97 mod97_from drop_bytes
    mod97_step run after_get get call_annotated call cached is_domain_code acquire try_acquire
    acquired_or_wait run_holder finish run_saga screen Fraud.check Compliance.check new_checker
    increment count_of is_kyc_approved check_accounts get_account new_account post
    command_transaction_id transfer_journal new_entry entry_id ledger_transaction_id new_transaction
    validate_balanced sum_by_side add safe_add ◌-ℤ◌ cmp transfer_posted_event new_event
    transfer_posted_id posted_result post_transfer in_tx transfer_writes insert_saga
    post_transaction_in_tx is_balanced commit_of lock_accounts load_accounts order_by
    unique_account_ids unique insert_by str_ltb validate_sufficient_funds check_funds
    list_entries_by_account load_entries load_entry halalas_from_minor_units balance_from_entries
    post_to is_debit_normal sub safe_sub insert_header insert_entries insert_entry format_int
    insert_events insert_event insert_settlement saga_id_from_key update_saga_state complete put
    redis_key decode_transfer_result encode_transfer_result money_string quot64 format_two rem64
    settlement_id_of saga_state_of settlement_status_of saga_state_text settlement_status_text
    str_eq Auth.validate api serve cors require_api_key api_key_auth dependencies
    new_api_key_validator defaults getenv usable_keys parse_csv with_request_id mux balance_text_for
    dispatch target_of handle audited transfer_create_handler take_bytes fraud_config seeded
    log_entry balance_text get_balance
reachable_balance_example =
    reachable_balance {Rate = ℕ} 1 seeded_world posted_world refl
      (Worlds.later Worlds.here (Worlds.request outside settings transfer_request))
      (text "wallet-bob") (text "25.50") refl

reachable_reconciles_example : (reconcile posted_world).0 ≡ ok tt
unfolding create_transfer command_of_request parse_sar trim_space field split_on parse_int byte_len
    sar execute Command.validate parse_key wrap64 ◌+ℤ◌ ◌*ℤ◌ parse_sa_iban api_ports normalize_iban
    to_upper remove_all has_prefix all_valid is_digit is_upper iban_mod97 mod97_from drop_bytes
    mod97_step run after_get get call_annotated call cached is_domain_code acquire try_acquire
    acquired_or_wait run_holder finish run_saga screen Fraud.check Compliance.check new_checker
    increment count_of is_kyc_approved check_accounts get_account new_account post
    command_transaction_id transfer_journal new_entry entry_id ledger_transaction_id new_transaction
    validate_balanced sum_by_side add safe_add ◌-ℤ◌ cmp transfer_posted_event new_event
    transfer_posted_id posted_result post_transfer in_tx transfer_writes insert_saga
    post_transaction_in_tx is_balanced commit_of lock_accounts load_accounts order_by
    unique_account_ids unique insert_by str_ltb validate_sufficient_funds check_funds
    list_entries_by_account load_entries load_entry halalas_from_minor_units balance_from_entries
    post_to is_debit_normal sub safe_sub insert_header insert_entries insert_entry format_int
    insert_events insert_event insert_settlement saga_id_from_key update_saga_state complete put
    redis_key decode_transfer_result encode_transfer_result money_string quot64 format_two rem64
    settlement_id_of saga_state_of settlement_status_of saga_state_text settlement_status_text
    str_eq Auth.validate api serve cors require_api_key api_key_auth dependencies
    new_api_key_validator defaults getenv usable_keys parse_csv with_request_id mux balance_text_for
    dispatch target_of handle audited transfer_create_handler take_bytes fraud_config seeded
    log_entry balance_text get_balance
reachable_reconciles_example =
    reachable_reconciles {Rate = ℕ} 1 seeded_world posted_world refl
      (Worlds.later Worlds.here (Worlds.request outside settings transfer_request)) refl
      (omega arith) (omega arith)
