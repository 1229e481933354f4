-- ===== src/Transfer/Command.antt =====
-- internal/transfer/domain/command.go, saga_record.go and events.go: the request, its checks, its
-- stored form and its event.
use banking_plateform.Base.{ℕ, Bool, not, ◌||◌, [], ◌∷◌, ◌++◌, Str, text, str_eq, is_empty}
use banking_plateform.Base.Int.{ℤ}
use banking_plateform.Shared.Errors.{
  Result, ok, err, domain, validation, invalid_money, ◌>>=◌, ◌>>◌, fail_if,
}
use banking_plateform.Shared.GoText.{Unicode, format_int}
use banking_plateform.Shared.Json.{Json, object, unmarshal, field}
use banking_plateform.Shared.Digest.{Digest}
use banking_plateform.Shared.Money.{Money, is_positive}
use banking_plateform.Shared.Money.Text.{money_string, parse_sar}
use banking_plateform.Shared.Iban.{parse_sa_iban}
use banking_plateform.Idempotency.Key.{parse_key, ledger_transaction_id}
use banking_plateform.Outbox.Event.{
  Event, new_event, transfer_posted_id, aggregate_transfer, event_transfer_posted,
}
use banking_plateform.Transfer.Saga.{SagaState, SettlementStatus}

abbrev pub transfer_scope : Str
transfer_scope = text "transfer"

pub record Command : Type 0 where
  pub idempotency_key : Str
  pub from_account_id : Str
  pub to_account_id : Str
  pub amount : Money
  pub beneficiary_iban : Str
  pub beneficiary_name : Str
  pub description : Str

pub record TransferResult : Type 0 where
  pub transaction_id : Str
  pub from_account_id : Str
  pub to_account_id : Str
  pub amount : Money
  pub saga_id : Str
  pub settlement_id : Str
  pub saga_state : SagaState
  pub settlement_status : SettlementStatus
  pub replayed : Bool

-- `EntryID`
unfoldable pub entry_id : Str → ℤ → Str
entry_id tx_id leg = tx_id ++ (text "-leg" ++ format_int leg)

-- `CommandJSON`
unfoldable pub command_json : Command → Json
command_json cmd = object (
    (text "idempotency_key", cmd.idempotency_key)
    ∷ (text "from_account_id", cmd.from_account_id)
    ∷ (text "to_account_id", cmd.to_account_id)
    ∷ (text "amount", money_string cmd.amount)
    ∷ (text "beneficiary_iban", cmd.beneficiary_iban)
    ∷ (text "description", cmd.description)
    ∷ (text "beneficiary_name", cmd.beneficiary_name)
    ∷ [])

-- `CommandFromJSON` of internal/transfer/adapters/postgres/saga_repository.go
unfoldable pub command_from_json : Json → Result Command
command_from_json j = do
  fs ← unmarshal j
  amount ← parse_sar (field (text "amount") fs)
  ok (record {
    idempotency_key = field (text "idempotency_key") fs;
    from_account_id = field (text "from_account_id") fs;
    to_account_id = field (text "to_account_id") fs;
    amount = amount;
    beneficiary_iban = field (text "beneficiary_iban") fs;
    beneficiary_name = field (text "beneficiary_name") fs;
    description = field (text "description") fs;
  })

-- `TransferPostedEvent`
unfoldable pub transfer_posted_event : ℕ → Command → TransferResult → Result Event
transfer_posted_event now cmd result =
    new_event now (transfer_posted_id result.transaction_id) aggregate_transfer
      result.transaction_id event_transfer_posted
      (object (
        (text "transaction_id", result.transaction_id)
        ∷ (text "from_account_id", result.from_account_id)
        ∷ (text "to_account_id", result.to_account_id)
        ∷ (text "amount", money_string result.amount)
        ∷ (text "beneficiary_iban", cmd.beneficiary_iban)
        ∷ []))

module _ (u : Unicode) where
  -- `Command.Validate`
  unfoldable pub validate : Command → Result (Unit {0})
  validate c = do
    parse_key c.idempotency_key
    fail_if (is_empty c.from_account_id || is_empty c.to_account_id) (domain validation)
    fail_if (str_eq c.from_account_id c.to_account_id) (domain validation)
    fail_if (not (is_positive c.amount)) (domain invalid_money)
    fail_if (is_empty c.beneficiary_iban) (domain validation)
    parse_sa_iban u c.beneficiary_iban
    ok tt

  -- `normalizeIBAN`: the parsed form, or the raw text when it does not parse.
  unfoldable pub normalized_iban : Str → Str
  normalized_iban raw = elim (parse_sa_iban u raw) [ ok i ↦ i.value | err e ↦ raw ]

  module _ (d : Digest) where
    -- `Fingerprint`
    unfoldable pub fingerprint : Command → Str
    fingerprint c = d.of_json (
        object (
          (text "from_account_id", c.from_account_id)
          ∷ (text "to_account_id", c.to_account_id)
          ∷ (text "amount_halalas", format_int c.amount.halalas)
          ∷ (text "currency", c.amount.currency)
          ∷ (text "beneficiary_iban", normalized_iban c.beneficiary_iban)
          ∷ (text "beneficiary_name", c.beneficiary_name)
          ∷ []))

-- `Command.LedgerTransactionID`
unfoldable pub command_transaction_id : Digest → Command → Result Str
command_transaction_id d c = do
  key ← parse_key c.idempotency_key
  ok (ledger_transaction_id d.of_text transfer_scope key)
