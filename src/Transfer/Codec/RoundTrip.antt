-- ===== src/Transfer/Codec/RoundTrip.antt =====
-- What was stored is read back: a transfer's result, and a saga's command.
use banking_plateform.Base.{◌≡◌, ◌≢◌, false, str_eq, arith}
use banking_plateform.Shared.Errors.{ok}
use banking_plateform.Shared.Int64.{min_int64}
use banking_plateform.Shared.Json.{field}
use banking_plateform.Shared.Money.Range.{IsRiyals}
use banking_plateform.Shared.Money.RoundTrip.{parse_sar-money_string}
use banking_plateform.Transfer.Saga.{
  saga_state_text, saga_state_of, settlement_status_text, settlement_status_of, posted, pending,
}
use banking_plateform.Transfer.Command.{Command, TransferResult, command_json, command_from_json}
use banking_plateform.Transfer.Codec.{encode_transfer_result, decode_transfer_result}

-- A command whose amount is in riyals, within int64 and not the least int64 is read back from its
-- JSON as it was.
pub command_from_json-command_json :
    (cmd : Command)
    → IsRiyals cmd.amount
    → cmd.amount.halalas ≢ min_int64
    → command_from_json (command_json cmd) ≡ ok cmd
unfolding command_from_json command_json field str_eq
command_from_json-command_json cmd r ne =
    ground (arith, parse_sar-money_string cmd.amount r.currency r.range ne)

-- The result of a posted transfer with a pending settlement, over riyals within int64 and not the
-- least int64, is read back from its stored form as it was, and not marked as replayed.
pub decode-encode :
    (r : TransferResult)
    → IsRiyals r.amount
    → r.amount.halalas ≢ min_int64
    → r.saga_state ≡ posted
    → r.settlement_status ≡ pending
    → decode_transfer_result (encode_transfer_result r) ≡ ok (record r { replayed = false })
unfolding decode_transfer_result encode_transfer_result field str_eq saga_state_text saga_state_of
    settlement_status_text settlement_status_of
decode-encode r h ne s p = ground (arith, parse_sar-money_string r.amount h.currency h.range ne)
