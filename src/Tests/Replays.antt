-- ===== src/Tests/Replays.antt =====
-- A transfer that is posted twice.
use banking_plateform.Idempotency.Record.{to_outcome, Outcome}
use banking_plateform.Idempotency.Guard.Replay.{run_refused}
use banking_plateform.Transfer.Service.Twice.{run_saga-Idles}
use banking_plateform.Idempotency.Guard.{
  is_safe_to_retry, answer_status, validate_fingerprint, answer_existing, finish, run_holder,
  acquired_or_wait, acquire, after_get, run,
}
use banking_plateform.Transfer.Command.{
  normalized_iban, fingerprint, transfer_posted_event, entry_id, command_transaction_id, validate,
  TransferResult, Command,
}
use banking_plateform.Base.{insert_by, order_by, str_eq, ◌≡◌, refl, [], ◌∷◌, true, false, text, inr}
use banking_plateform.Base.Int.{◌-ℤ◌, ◌*ℤ◌, ◌+ℤ◌, pos}
use banking_plateform.Idempotency.Key.{saga_id_from_key, ledger_transaction_id, parse_key}
use banking_plateform.Idempotency.Store.{redis_key, put, complete, try_acquire, cached, get}
use banking_plateform.Ledger.Account.{is_debit_normal, new_account}
use banking_plateform.Ledger.Balance.{post_to, balance_from_entries}
use banking_plateform.Ledger.Entry.{new_entry}
use banking_plateform.Ledger.Repository.{
  insert_entry, insert_entries, insert_header, load_entry, load_entries, list_entries_by_account,
  check_funds, validate_sufficient_funds, unique_account_ids, load_accounts, lock_accounts,
  post_transaction_in_tx, get_account,
}
use banking_plateform.Ledger.Transaction.{
  is_balanced, sum_by_side, validate_balanced, new_transaction,
}
use banking_plateform.Outbox.Event.{transfer_posted_id, new_event}
use banking_plateform.Outbox.Repository.{insert_event}
use banking_plateform.Platform.Handlers.{command_of_request, create_transfer, Answer}
use banking_plateform.Platform.Twice.{create_transfer_twice, api_ports-ScreensIdle}
use banking_plateform.Platform.Wiring.{api_ports}
use banking_plateform.Screening.Compliance.{is_kyc_approved}
use banking_plateform.Screening.Fraud.{count_of, increment, new_checker, Config}
use banking_plateform.Shared.Errors.{is_domain_code, err, domain, conflict, insufficient_funds}
use banking_plateform.Shared.GoText.{
  format_two, format_int, is_upper, is_digit, has_prefix, remove_all, to_upper, byte_len, parse_int,
  split_on, trim_space,
}
use banking_plateform.Shared.Iban.{
  mod97_step, take_bytes, drop_bytes, mod97_from, iban_mod97, all_valid, normalize_iban,
  parse_sa_iban,
}
use banking_plateform.Shared.Int64.{rem64, quot64, wrap64}
use banking_plateform.Shared.Json.{field, Json, object}
use banking_plateform.Shared.Money.{
  safe_sub, sub, halalas_from_minor_units, cmp, safe_add, add, sar,
}
use banking_plateform.Shared.Money.Text.{money_string, parse_sar}
use banking_plateform.Storage.{World}
use banking_plateform.Storage.Monad.{M, in_tx, call, call_annotated}
use banking_plateform.Storage.Text.{str_ltb, unique}
use banking_plateform.Tests.Books.{quiet_world, ascii, plain_digest}
use banking_plateform.Transfer.Codec.{encode_transfer_result, decode_transfer_result}
use banking_plateform.Transfer.Coordinator.{insert_events, transfer_writes, post_transfer}
use banking_plateform.Transfer.Saga.{
  settlement_status_text, saga_state_text, settlement_status_of, saga_state_of, posted, pending,
}
use banking_plateform.Transfer.SagaStore.{update_saga_state, insert_settlement, insert_saga}
use banking_plateform.Transfer.Service.{
  settlement_id_of, commit_of, posted_result, transfer_journal, post, check_accounts, screen,
  run_saga, execute,
}
use banking_plateform.System.History.Once.{one_transfer_per_key}
use banking_plateform.System.Seed.{seeded}
use banking_plateform.System.Interleaved.{start}
use banking_plateform.Tests.Systems.{seeded_world}
use banking_plateform.Screening.Fraud as Fraud
use banking_plateform.Screening.Compliance as Compliance

abbrev limits : Config
limits = record { max_single_halalas = pos 0; max_hourly_transfers = pos 0 }

abbrev request : Json
request = object (
    (text "from_account_id", text "acc-alice")
    ∷ (text "to_account_id", text "acc-bob")
    ∷ (text "amount", text "25.50")
    ∷ (text "beneficiary_iban", text "SA0380000000608010167519")
    ∷ (text "beneficiary_name", text "Bob")
    ∷ (text "description", text "rent")
    ∷ [])

abbrev attempt : Answer TransferResult
attempt =
    (create_transfer (api_ports limits ascii plain_digest) (text "key-0001") request quiet_world).0

abbrev receipt : TransferResult
receipt = record {
  transaction_id = text "tx_idem_transfer:key-0001";
  from_account_id = text "acc-alice";
  to_account_id = text "acc-bob";
  amount = record { halalas = pos 2550; currency = text "SAR" };
  saga_id = text "saga_saga:key-0001";
  settlement_id = text "stl_tx_idem_transfer:key-0001";
  saga_state = posted;
  settlement_status = pending;
  replayed = false;
}

-- The world behind the first request.
abbrev after : World
after =
    (create_transfer (api_ports limits ascii plain_digest) (text "key-0001") request quiet_world).1

create_transfer_twice_example :
    create_transfer (api_ports limits ascii plain_digest) (text "key-0001") request after
    ≡ (record { status = 201; body = inr (record receipt { replayed = true }) }, after)
unfolding create_transfer command_of_request parse_sar trim_space field str_eq split_on parse_int
    byte_len sar execute validate parse_key wrap64 ◌+ℤ◌ ◌*ℤ◌ parse_sa_iban api_ports normalize_iban
    to_upper remove_all has_prefix all_valid is_digit is_upper iban_mod97 mod97_from drop_bytes
    take_bytes mod97_step run after_get get call_annotated call cached is_domain_code acquire
    try_acquire acquired_or_wait run_holder finish run_saga screen Fraud.check Compliance.check
    new_checker increment count_of is_kyc_approved check_accounts get_account new_account post
    command_transaction_id transfer_journal new_entry entry_id ledger_transaction_id new_transaction
    validate_balanced sum_by_side add safe_add ◌-ℤ◌ cmp transfer_posted_event new_event
    transfer_posted_id posted_result post_transfer in_tx transfer_writes insert_saga
    post_transaction_in_tx is_balanced commit_of lock_accounts load_accounts order_by
    unique_account_ids unique insert_by str_ltb validate_sufficient_funds check_funds
    list_entries_by_account load_entries load_entry halalas_from_minor_units balance_from_entries
    post_to is_debit_normal sub safe_sub insert_header insert_entries insert_entry format_int
    insert_events insert_event insert_settlement saga_id_from_key update_saga_state complete put
    redis_key decode_transfer_result encode_transfer_result money_string quot64 format_two rem64
    settlement_id_of saga_state_of settlement_status_of saga_state_text settlement_status_text
create_transfer_twice_example =
    create_transfer_twice limits ascii plain_digest (text "key-0001") request quiet_world receipt
      refl refl

-- The same between two seeded wallets, as a step in the life of the system.
abbrev wallet_request : Json
wallet_request = object (
    (text "from_account_id", text "wallet-alice")
    ∷ (text "to_account_id", text "wallet-bob")
    ∷ (text "amount", text "25.50")
    ∷ (text "beneficiary_iban", text "SA0380000000608010167519")
    ∷ (text "beneficiary_name", text "Bob")
    ∷ (text "description", text "rent")
    ∷ [])

abbrev wallet_receipt : TransferResult
wallet_receipt = record receipt {
  from_account_id = text "wallet-alice";
  to_account_id = text "wallet-bob";
}

abbrev behind : World
behind =
    (create_transfer (api_ports limits ascii plain_digest) (text "key-0001") wallet_request
      seeded_world).1

one_transfer_per_key_example : (record wallet_receipt { replayed = true }).replayed ≡ true
unfolding create_transfer command_of_request parse_sar trim_space field str_eq split_on parse_int
    byte_len sar execute validate parse_key wrap64 ◌+ℤ◌ ◌*ℤ◌ parse_sa_iban api_ports normalize_iban
    to_upper remove_all has_prefix all_valid is_digit is_upper iban_mod97 mod97_from drop_bytes
    take_bytes mod97_step run after_get get call_annotated call cached is_domain_code acquire
    try_acquire acquired_or_wait run_holder finish run_saga screen Fraud.check Compliance.check
    new_checker increment count_of is_kyc_approved check_accounts get_account new_account post
    command_transaction_id transfer_journal new_entry entry_id ledger_transaction_id new_transaction
    validate_balanced sum_by_side add safe_add ◌-ℤ◌ cmp transfer_posted_event new_event
    transfer_posted_id posted_result post_transfer in_tx transfer_writes insert_saga
    post_transaction_in_tx is_balanced commit_of lock_accounts load_accounts order_by
    unique_account_ids unique insert_by str_ltb validate_sufficient_funds check_funds
    list_entries_by_account load_entries load_entry halalas_from_minor_units balance_from_entries
    post_to is_debit_normal sub safe_sub insert_header insert_entries insert_entry format_int
    insert_events insert_event insert_settlement saga_id_from_key update_saga_state complete put
    redis_key decode_transfer_result encode_transfer_result money_string quot64 format_two rem64
    settlement_id_of saga_state_of settlement_status_of saga_state_text settlement_status_text
    seeded answer_existing validate_fingerprint fingerprint normalized_iban answer_status to_outcome
one_transfer_per_key_example =
    one_transfer_per_key seeded_world behind limits ascii plain_digest (text "key-0001")
      wallet_request wallet_request wallet_receipt (record wallet_receipt { replayed = true }) refl
      refl start refl

-- A command over more than the sender has.
abbrev rich : Command
rich = record {
  idempotency_key = text "key-0001";
  from_account_id = text "acc-alice";
  to_account_id = text "acc-bob";
  amount = record { halalas = pos 20000; currency = text "SAR" };
  beneficiary_iban = text "SA0380000000608010167519";
  beneficiary_name = text "Bob";
  description = text "rent";
}

abbrev spend : M Outcome
spend = run_saga (api_ports limits ascii plain_digest) rich

abbrev refused_world : World
refused_world = (run (text "transfer") (text "key-0001") (text "fp") spend quiet_world).1

run_refused_example :
    run (text "transfer") (text "key-0001") (text "fp") spend refused_world
    ≡ (err (domain conflict), refused_world)
unfolding create_transfer command_of_request parse_sar trim_space field str_eq split_on parse_int
    byte_len sar execute validate parse_key wrap64 ◌+ℤ◌ ◌*ℤ◌ parse_sa_iban api_ports normalize_iban
    to_upper remove_all has_prefix all_valid is_digit is_upper iban_mod97 mod97_from drop_bytes
    take_bytes mod97_step run after_get get call_annotated call cached is_domain_code acquire
    try_acquire acquired_or_wait run_holder finish run_saga screen Fraud.check Compliance.check
    new_checker increment count_of is_kyc_approved check_accounts get_account new_account post
    command_transaction_id transfer_journal new_entry entry_id ledger_transaction_id new_transaction
    validate_balanced sum_by_side add safe_add ◌-ℤ◌ cmp transfer_posted_event new_event
    transfer_posted_id posted_result post_transfer in_tx transfer_writes insert_saga
    post_transaction_in_tx is_balanced commit_of lock_accounts load_accounts order_by
    unique_account_ids unique insert_by str_ltb validate_sufficient_funds check_funds
    list_entries_by_account load_entries load_entry halalas_from_minor_units balance_from_entries
    post_to is_debit_normal sub safe_sub insert_header insert_entries insert_entry format_int
    insert_events insert_event insert_settlement saga_id_from_key update_saga_state complete put
    redis_key decode_transfer_result encode_transfer_result money_string quot64 format_two rem64
    settlement_id_of saga_state_of settlement_status_of saga_state_text settlement_status_text
    is_safe_to_retry
run_refused_example =
    run_refused (text "transfer") (text "key-0001") (text "fp") spend spend quiet_world
      (domain insufficient_funds)
      (run_saga-Idles (api_ports limits ascii plain_digest)
        (api_ports-ScreensIdle limits ascii plain_digest) rich).at
      refl refl refl refl
