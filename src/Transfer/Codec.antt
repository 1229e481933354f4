-- ===== src/Transfer/Codec.antt =====
-- internal/transfer/app/codec.go: the stored form of a transfer's result.
pub mod RoundTrip
use banking_plateform.Base.{false, [], ◌∷◌, Str, text}
use banking_plateform.Shared.Errors.{Result, ok, err, annotated, ◌>>=◌, relabel}
use banking_plateform.Shared.Json.{Json, object, unmarshal, field}
use banking_plateform.Shared.Money.Text.{money_string, parse_sar}
use banking_plateform.Transfer.Command.{TransferResult}
use banking_plateform.Transfer.Saga.{
  saga_state_text, saga_state_of, settlement_status_text, settlement_status_of,
}

unfoldable pub encode_transfer_result : TransferResult → Json
encode_transfer_result r = object (
    (text "transaction_id", r.transaction_id)
    ∷ (text "from_account_id", r.from_account_id)
    ∷ (text "to_account_id", r.to_account_id)
    ∷ (text "amount", money_string r.amount)
    ∷ (text "saga_id", r.saga_id)
    ∷ (text "settlement_id", r.settlement_id)
    ∷ (text "saga_state", saga_state_text r.saga_state)
    ∷ (text "settlement_status", settlement_status_text r.settlement_status)
    ∷ [])

unfoldable pub decode_transfer_result : Json → Result TransferResult
decode_transfer_result payload = do
  fs ← relabel (unmarshal payload)
  amount ← parse_sar (field (text "amount") fs)
  ok (record {
    transaction_id = field (text "transaction_id") fs;
    from_account_id = field (text "from_account_id") fs;
    to_account_id = field (text "to_account_id") fs;
    amount = amount;
    saga_id = field (text "saga_id") fs;
    settlement_id = field (text "settlement_id") fs;
    saga_state = saga_state_of (field (text "saga_state") fs);
    settlement_status = settlement_status_of (field (text "settlement_status") fs);
    replayed = false;
  })
