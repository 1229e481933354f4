-- ===== src/Tests/Refunds.antt =====
-- A settlement that the rail refuses, after its compensation.
use banking_plateform.Transfer.Command.{
  command_from_json, command_json, transfer_posted_event, entry_id, command_transaction_id,
  TransferResult,
}
use banking_plateform.Transfer.Coordinator.{
  post_compensation, insert_events, transfer_writes, post_transfer,
}
use banking_plateform.Settlement.Processor.{
  post_reversal, compensation_journal, compensate, with_reason,
}
use banking_plateform.Transfer.SagaStore.{
  get_saga, update_sagas, update_saga_state, insert_settlement, insert_saga,
}
use banking_plateform.Base.{
  [], insert_by, order_by, str_eq, refl, text, ◌≢◌, ap, exists, ◌≡◌, true, Bool, arith,
}
use banking_plateform.Base.Int.{◌-ℤ◌, ◌*ℤ◌, ◌+ℤ◌, pos}
use banking_plateform.Idempotency.Guard.{
  finish, run_holder, acquired_or_wait, acquire, after_get, run,
}
use banking_plateform.Idempotency.Key.{saga_id_from_key, ledger_transaction_id, parse_key}
use banking_plateform.Idempotency.Store.{redis_key, put, complete, try_acquire, cached, get}
use banking_plateform.Ledger.Account.{is_debit_normal, new_account}
use banking_plateform.Ledger.Balance.{post_to, balance_from_entries}
use banking_plateform.Ledger.Entry.{new_entry}
use banking_plateform.Ledger.Repository.{
  get_balance, insert_entry, insert_entries, insert_header, load_entry, load_entries,
  list_entries_by_account, check_funds, validate_sufficient_funds, unique_account_ids,
  load_accounts, lock_accounts, post_transaction_in_tx, get_account,
}
use banking_plateform.Ledger.Transaction.{
  is_balanced, sum_by_side, validate_balanced, new_transaction,
}
use banking_plateform.Outbox.Event.{transfer_posted_id, new_event}
use banking_plateform.Outbox.Repository.{insert_event}
use banking_plateform.Platform.Api.{fraud_config, dependencies, api}
use banking_plateform.Platform.Auth.{usable_keys, new_api_key_validator, api_key_auth}
use banking_plateform.Platform.Config.{parse_csv, getenv, defaults}
use banking_plateform.Platform.Handlers.{command_of_request, create_transfer}
use banking_plateform.Platform.Log.{log_entry}
use banking_plateform.Platform.Middleware.{audited, with_request_id, require_api_key, cors}
use banking_plateform.Platform.Poster.{balance_text, balance_text_for}
use banking_plateform.Platform.Server.{
  transfer_create_handler, handle, target_of, dispatch, mux, serve,
}
use banking_plateform.Platform.Wiring.{api_ports}
use banking_plateform.Screening.Compliance.{is_kyc_approved}
use banking_plateform.Screening.Fraud.{count_of, increment, new_checker, Config}
use banking_plateform.Shared.Errors.{ok, is_domain_code}
use banking_plateform.Shared.GoText.{
  format_two, format_int, is_upper, is_digit, has_prefix, remove_all, to_upper, byte_len, parse_int,
  split_on, trim_space,
}
use banking_plateform.Shared.Iban.{
  mod97_step, take_bytes, drop_bytes, mod97_from, iban_mod97, all_valid, normalize_iban,
  parse_sa_iban,
}
use banking_plateform.Shared.Int64.{rem64, quot64, wrap64}
use banking_plateform.Shared.Json.{field}
use banking_plateform.Shared.Money.{
  safe_sub, sub, halalas_from_minor_units, cmp, safe_add, add, sar,
}
use banking_plateform.Shared.Money.Text.{money_string, parse_sar}
use banking_plateform.Storage.Monad.{in_tx, call, call_annotated}
use banking_plateform.Storage.Text.{str_ltb, unique, elem}
use banking_plateform.System.Seed.{seeded}
use banking_plateform.Tests.Systems.{
  posted_world, outside, settings, transfer_request, seeded_world,
}
use banking_plateform.System.Access.{writes_are_authorized}
use banking_plateform.Transfer.Codec.{encode_transfer_result, decode_transfer_result}
use banking_plateform.Transfer.Saga.{
  settlement_status_text, saga_state_text, settlement_status_of, saga_state_of, SettlementRecord,
  pending, settling,
}
use banking_plateform.Transfer.Service.{
  settlement_id_of, commit_of, posted_result, transfer_journal, post, check_accounts, screen,
  run_saga, execute,
}
use banking_plateform.Platform.Auth as Auth
use banking_plateform.Transfer.Command as Command
use banking_plateform.Screening.Fraud as Fraud
use banking_plateform.Screening.Compliance as Compliance
use banking_plateform.System.Commits.{begin, progress}
use banking_plateform.System.Commits.Refund.{refunded_once}
use banking_plateform.Storage.{World, Db}

abbrev settlement : SettlementRecord
settlement = record {
  id = text "stl_tx_idem_transfer:key-0001";
  saga_id = text "saga_saga:key-0001";
  beneficiary_iban = text "SA0380000000608010167519";
  amount_halalas = pos 2550;
  currency = text "SAR";
  status = pending;
  attempts = 0;
  last_error = [];
  created_at = 5;
  updated_at = 5;
}

abbrev refunded_world : World
refunded_world = (compensate settlement posted_world).1

-- A worker that has claimed the settlement before takes it up again.
abbrev later_world : World
later_world = (update_saga_state settlement.saga_id settling (with_reason []) refunded_world).1

refunded_once_example : (compensate settlement later_world).0 ≢ ok tt
unfolding create_transfer command_of_request parse_sar trim_space field split_on parse_int byte_len
    sar execute Command.validate parse_key wrap64 ◌+ℤ◌ ◌*ℤ◌ parse_sa_iban api_ports normalize_iban
    to_upper remove_all has_prefix all_valid is_digit is_upper iban_mod97 mod97_from drop_bytes
    mod97_step run after_get get call_annotated call cached is_domain_code acquire try_acquire
    acquired_or_wait run_holder finish run_saga screen Fraud.check Compliance.check new_checker
    increment count_of is_kyc_approved check_accounts get_account new_account post
    command_transaction_id transfer_journal new_entry entry_id ledger_transaction_id new_transaction
    validate_balanced sum_by_side add safe_add ◌-ℤ◌ cmp transfer_posted_event new_event
    transfer_posted_id posted_result post_transfer in_tx transfer_writes insert_saga
    post_transaction_in_tx is_balanced commit_of lock_accounts load_accounts order_by
    unique_account_ids unique insert_by str_ltb validate_sufficient_funds check_funds
    list_entries_by_account load_entries load_entry halalas_from_minor_units balance_from_entries
    post_to is_debit_normal sub safe_sub insert_header insert_entries insert_entry format_int
    insert_events insert_event insert_settlement saga_id_from_key update_saga_state complete put
    redis_key decode_transfer_result encode_transfer_result money_string quot64 format_two rem64
    settlement_id_of saga_state_of settlement_status_of saga_state_text settlement_status_text
    str_eq Auth.validate api serve cors require_api_key api_key_auth dependencies
    new_api_key_validator defaults getenv usable_keys parse_csv with_request_id mux balance_text_for
    dispatch target_of handle audited transfer_create_handler take_bytes fraud_config seeded
    log_entry balance_text get_balance compensate update_sagas command_json get_saga
    command_from_json compensation_journal post_reversal post_compensation
refunded_once_example =
    refunded_once posted_world later_world settlement refl
      (progress refunded_world settlement.saga_id settling [] begin)

-- A transfer with a configured key changes the tables.
abbrev has_events : Db → Bool
has_events db = exists (λ e. true) db.outbox

writes_are_authorized_example : elem transfer_request.api_key (usable_keys settings.api_keys) ≡ true
unfolding create_transfer command_of_request parse_sar trim_space field split_on parse_int byte_len
    sar execute Command.validate parse_key wrap64 ◌+ℤ◌ ◌*ℤ◌ parse_sa_iban api_ports normalize_iban
    to_upper remove_all has_prefix all_valid is_digit is_upper iban_mod97 mod97_from drop_bytes
    mod97_step run after_get get call_annotated call cached is_domain_code acquire try_acquire
    acquired_or_wait run_holder finish run_saga screen Fraud.check Compliance.check new_checker
    increment count_of is_kyc_approved check_accounts get_account new_account post
    command_transaction_id transfer_journal new_entry entry_id ledger_transaction_id new_transaction
    validate_balanced sum_by_side add safe_add ◌-ℤ◌ cmp transfer_posted_event new_event
    transfer_posted_id posted_result post_transfer in_tx transfer_writes insert_saga
    post_transaction_in_tx is_balanced commit_of lock_accounts load_accounts order_by
    unique_account_ids unique insert_by str_ltb validate_sufficient_funds check_funds
    list_entries_by_account load_entries load_entry halalas_from_minor_units balance_from_entries
    post_to is_debit_normal sub safe_sub insert_header insert_entries insert_entry format_int
    insert_events insert_event insert_settlement saga_id_from_key update_saga_state complete put
    redis_key decode_transfer_result encode_transfer_result money_string quot64 format_two rem64
    settlement_id_of saga_state_of settlement_status_of saga_state_text settlement_status_text
    str_eq Auth.validate api serve cors require_api_key api_key_auth dependencies
    new_api_key_validator defaults getenv usable_keys parse_csv with_request_id mux balance_text_for
    dispatch target_of handle audited transfer_create_handler take_bytes fraud_config seeded
    log_entry balance_text get_balance compensate update_sagas command_json get_saga
    command_from_json compensation_journal post_reversal post_compensation
writes_are_authorized_example =
    writes_are_authorized outside settings transfer_request seeded_world refl
      (λ e. ground (arith, ap has_events e))
