-- ===== src/Tests/Calls.antt =====
-- Requests, postings and settlements on the small bank.
use banking_plateform.Base.{◌≡◌, refl, [], ◌∷◌, true, false, All, Str, text, arith, none, str_eq}
use banking_plateform.Base.Int.{pos}
use banking_plateform.Shared.Errors.{ok, err, domain, forbidden, is_domain_code, as_domain_error}
use banking_plateform.Shared.Json.{Json, object}
use banking_plateform.Ledger.Entry.{debit, credit, is_valid_side, IsLine}
use banking_plateform.Ledger.Transaction.{Transaction}
use banking_plateform.Ledger.Repository.{post_transaction}
use banking_plateform.Ledger.Repository.Invariant.{IsSound, post_transaction-IsSound}
use banking_plateform.Screening.Fraud.{Config}
use banking_plateform.Idempotency.Record.{Outcome}
use banking_plateform.Idempotency.Guard.{
  run, is_safe_to_retry, after_get, acquire, acquired_or_wait, run_holder, finish,
}
use banking_plateform.Idempotency.Guard.Replay.{run_twice, run_released}
use banking_plateform.Idempotency.Store.{cached, redis_key, put, get, try_acquire, complete}
use banking_plateform.Storage.{World, fine, fault}
use banking_plateform.Storage.Monad.{M, pure, raise, call, call_annotated}
use banking_plateform.Transfer.Saga.{SettlementRecord, SagaRecord, pending, started}
use banking_plateform.Transfer.Command.{Command, command_json}
use banking_plateform.Transfer.Coordinator.{TransferCommit}
use banking_plateform.Settlement.Processor.{SettlementResult}
use banking_plateform.Tests.Books.{
  alice, bob, sar_of, entry_of, entry_of-IsLine, bank, bank-IsSound, quiet_world,
}

abbrev limits : Config
limits = record { max_single_halalas = pos 0; max_hourly_transfers = pos 0 }

abbrev request : Json
request = object (
    (text "from_account_id", text "acc-alice")
    ∷ (text "to_account_id", text "acc-bob")
    ∷ (text "amount", text "25.50")
    ∷ (text "beneficiary_iban", text "SA0380000000608010167519")
    ∷ (text "beneficiary_name", text "Bob")
    ∷ (text "description", text "rent")
    ∷ [])

abbrev pub rent : Transaction
rent = record {
  id = text "tx-1";
  description = text "rent";
  entries =
      entry_of (text "tx-1-leg1") alice debit 2550
      ∷ entry_of (text "tx-1-leg2") bob credit 2550
      ∷ [];
  recorded_at = 5;
}

rent-lines : All IsLine rent.entries
unfolding is_valid_side
rent-lines = (
  entry_of-IsLine (text "tx-1-leg1") alice debit 2550 refl refl refl (omega arith) (omega arith),
  (
    entry_of-IsLine (text "tx-1-leg2") bob credit 2550 refl refl refl (omega arith) (omega arith),
    tt,
  ),
)

post_transaction-IsSound_example : IsSound (post_transaction rent quiet_world).1.db
post_transaction-IsSound_example = post_transaction-IsSound rent quiet_world rent-lines bank-IsSound

abbrev rent_command : Command
rent_command = record {
  idempotency_key = text "key-0001";
  from_account_id = text "acc-alice";
  to_account_id = text "acc-bob";
  amount = sar_of 2550;
  beneficiary_iban = text "SA0380000000608010167519";
  beneficiary_name = text "Bob";
  description = text "rent";
}

abbrev saga_row : SagaRecord
saga_row = record {
  id = text "saga-1";
  state = started;
  idempotency_key = text "key-0001";
  command_json = command_json rent_command;
  transaction_id = text "tx-1";
  settlement_id = text "stl-1";
  failure_reason = [];
  created_at = 5;
  updated_at = 5;
}

abbrev pub settlement_row : SettlementRecord
settlement_row = record {
  id = text "stl-1";
  saga_id = text "saga-1";
  beneficiary_iban = text "SA0380000000608010167519";
  amount_halalas = pos 2550;
  currency = text "SAR";
  status = pending;
  attempts = 0;
  last_error = [];
  created_at = 5;
  updated_at = 5;
}

abbrev pub rent_commit : TransferCommit
rent_commit = record { ledger_tx = rent; events = []; saga = saga_row; settlement = settlement_row }

-- The same bank, with a call that fails on the way.
abbrev faulty_world : World
faulty_world = record quiet_world { script = fine ∷ fine ∷ fault ∷ [] }

-- A settlement that the rail rejects.
abbrev pub rejecting : Str → M SettlementResult
rejecting id = pure (record { success = false; reference = []; error = text "R01" })

abbrev pub settling_world : World
settling_world = record quiet_world {
  db = record bank { sagas = saga_row ∷ []; settlements = settlement_row ∷ [] };
}

abbrev receipt : Outcome
receipt = record { resource_id = text "tx-1"; payload = request }

run_twice_example :
    run
      (text "transfer")
      (text "key-0001")
      (text "fp")
      (raise (domain forbidden))
      (run (text "transfer") (text "key-0001") (text "fp") (pure receipt) quiet_world).1
    ≡ (
      ok (receipt, true),
      (run (text "transfer") (text "key-0001") (text "fp") (pure receipt) quiet_world).1,
    )
unfolding run after_get acquire acquired_or_wait run_holder finish get try_acquire complete call
    call_annotated cached put redis_key is_domain_code str_eq
run_twice_example =
    run_twice (text "transfer") (text "key-0001") (text "fp") (pure receipt)
      (raise (domain forbidden)) quiet_world receipt false (λ w q. (q, refl)) refl refl

run_released_example :
    ((run (text "transfer") (text "key-0001") (text "fp") (raise (domain forbidden)) quiet_world).0
      ≡ err (domain forbidden))
    × (cached
          (redis_key (text "transfer") (text "key-0001"))
          (run
            (text "transfer")
            (text "key-0001")
            (text "fp")
            (raise (domain forbidden))
            quiet_world).1.cache
        ≡ none)
unfolding cached is_safe_to_retry as_domain_error
run_released_example =
    run_released (text "transfer") (text "key-0001") (text "fp") (raise (domain forbidden))
      quiet_world (domain forbidden) (λ w q. (q, refl)) refl refl (λ v. refl) refl
