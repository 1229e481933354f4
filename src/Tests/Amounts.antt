-- ===== src/Tests/Amounts.antt =====
-- Amounts, journals and balances at concrete values.
use banking_plateform.Ledger.Balance.Exact.{apply_entries_exact, net, riyals_ℤ}
use banking_plateform.Shared.Money.Arith.{sub-ExactMoney, ExactMoney, add-ExactMoney}
use banking_plateform.Base.Int.{◌-ℤ◌, ◌*ℤ◌, negsuc, pos, ◌+ℤ◌}
use banking_plateform.Ledger.Balance.{apply_entries, post_to, balance_from_entries}
use banking_plateform.Shared.Money.{
  sub, negate, Money, add, safe_add, sar, cmp, halalas_from_minor_units,
}
use banking_plateform.Base.{
  str_eq_iff, order_by, insert_by, ◌≡◌, ◌≢◌, ◌↔◌, refl, ◌++◌, false, All, text, arith, ◌*◌, ◌+◌,
  str_eq,
}
use banking_plateform.Shared.Int64.{neg64, quot64, rem64, wrap64}
use banking_plateform.Shared.GoText.{
  trim_space, split_on, byte_len, parse_int, format_int, format_two,
}
use banking_plateform.Shared.Errors.{ok}
use banking_plateform.Shared.Money.Text.{parse_sar, money_string}
use banking_plateform.Shared.Money.RoundTrip.{parse_sar-money_string}
use banking_plateform.Shared.Money.Range.{IsRiyals, sar_wraps}
use banking_plateform.Ledger.Account.{is_debit_normal}
use banking_plateform.Ledger.Entry.{debit, credit, IsPosting, is_valid_side, new_entry}
use banking_plateform.Ledger.Transaction.{
  Transaction, validate_balanced, new_transaction, sum_by_side,
}
use banking_plateform.Ledger.Transaction.Sums.{IsBalancedBy, validate_balanced_iff}
use banking_plateform.Ledger.Repository.{
  get_balance, list_entries_by_account, load_entries, load_entry,
}
use banking_plateform.Storage.Monad.{call, call_annotated}
use banking_plateform.Ledger.Repository.Reading.{lines, get_balance_exact}
use banking_plateform.Transfer.Command.{
  Command, TransferResult, command_json, command_from_json, entry_id,
}
use banking_plateform.Transfer.Saga.{posted, pending}
use banking_plateform.Transfer.Codec.{encode_transfer_result, decode_transfer_result}
use banking_plateform.Transfer.Codec.RoundTrip.{command_from_json-command_json, decode-encode}
use banking_plateform.Transfer.Service.{transfer_journal}
use banking_plateform.Transfer.Service.Journal.{movement}
use banking_plateform.Transfer.Service.Moves.{transfer_moves, compensation_cancels}
use banking_plateform.Settlement.Processor.{compensation_journal}
use banking_plateform.Tests.Books.{
  alice, bob, cash, sar_of, entry_of-IsLine, deposit_lines, bank, bank-IsSound, quiet_world,
}

add-ExactMoney_example :
    ExactMoney (pos 500 +ℤ pos 20) (sar_of 500) (sar_of 20) (add (sar_of 500) (sar_of 20))
add-ExactMoney_example = add-ExactMoney (sar_of 500) (sar_of 20) (omega arith) (omega arith)

parse_sar-money_string_example : parse_sar (money_string (sar_of 2550)) ≡ ok (sar_of 2550)
parse_sar-money_string_example =
    parse_sar-money_string (sar_of 2550) refl (omega arith) (ground arith)

sar_wraps_example :
    (m : Money) × (sar (pos 92233720368547758) (pos 8) ≡ ok m)
    × (m.halalas ≢ pos (92233720368547758 * 100 + 8))
sar_wraps_example = sar_wraps 92233720368547758 8 (omega arith) (omega arith) (omega arith)

deposit-postings : All IsPosting deposit_lines
unfolding is_valid_side
deposit-postings = (
  (entry_of-IsLine (text "dep-leg1") cash debit 10000 refl refl refl (omega arith)
      (omega arith)).posting,
  (
    (entry_of-IsLine (text "dep-leg2") alice credit 10000 refl refl refl (omega arith)
        (omega arith)).posting,
    tt,
  ),
)

validate_balanced_iff_example :
    (validate_balanced deposit_lines ≡ ok tt) ↔ IsBalancedBy deposit_lines
validate_balanced_iff_example = validate_balanced_iff deposit_lines deposit-postings

get_balance_exact_example : sar_of 10000 ≡ riyals_ℤ (net alice (lines bank.entries))
unfolding get_balance list_entries_by_account call_annotated call load_entries order_by str_eq
    insert_by load_entry halalas_from_minor_units new_entry is_valid_side balance_from_entries
    apply_entries post_to is_debit_normal add safe_add wrap64 ◌-ℤ◌ ◌+ℤ◌
get_balance_exact_example =
    get_balance_exact alice quiet_world (sar_of 10000) bank-IsSound.stored refl

abbrev order : Command
order = record {
  idempotency_key = text "key-0001";
  from_account_id = text "acc-alice";
  to_account_id = text "acc-bob";
  amount = sar_of 2550;
  beneficiary_iban = text "SA0380000000608010167519";
  beneficiary_name = text "Bob";
  description = text "rent";
}

order-IsRiyals : IsRiyals order.amount
order-IsRiyals = record { currency = refl; range = omega arith }

command_from_json-command_json_example : command_from_json (command_json order) ≡ ok order
command_from_json-command_json_example =
    command_from_json-command_json order order-IsRiyals (ground arith)

abbrev outcome : TransferResult
outcome = record {
  transaction_id = text "tx-1";
  from_account_id = text "acc-alice";
  to_account_id = text "acc-bob";
  amount = sar_of 2550;
  saga_id = text "saga-1";
  settlement_id = text "stl-1";
  saga_state = posted;
  settlement_status = pending;
  replayed = false;
}

decode-encode_example : decode_transfer_result (encode_transfer_result outcome) ≡ ok outcome
decode-encode_example = decode-encode outcome order-IsRiyals (ground arith) refl refl

-- The journal of the order, and its reversal.
abbrev paid : Transaction
paid = record {
  id = text "tx-1";
  description = text "rent";
  entries = movement (text "tx-1") (text "acc-alice") (text "acc-bob") (sar_of 2550);
  recorded_at = 5;
}

abbrev reversed : Transaction
reversed = record {
  id = text "tx-1-comp";
  description = text "compensate failed sarie settlement";
  entries = movement (text "tx-1-comp") (text "acc-bob") (text "acc-alice") (sar_of 2550);
  recorded_at = 9;
}

order-journal : transfer_journal 5 (text "tx-1") (text "rent") order ≡ ok paid
unfolding transfer_journal new_entry entry_id new_transaction validate_balanced sum_by_side add
    str_eq safe_add wrap64 ◌-ℤ◌ cmp ◌+ℤ◌
order-journal = refl

order-reversal : compensation_journal 9 (text "tx-1-comp") order order.amount ≡ ok reversed
unfolding compensation_journal new_entry entry_id new_transaction validate_balanced sum_by_side add
    str_eq safe_add wrap64 ◌-ℤ◌ cmp ◌+ℤ◌
order-reversal = refl

transfer_moves_example :
    (net alice paid.entries ≡ pos 0 -ℤ pos 2550) × (net bob paid.entries ≡ pos 2550)
unfolding is_debit_normal str_eq
transfer_moves_example =
    transfer_moves 5 (text "tx-1") (text "rent") order paid alice bob order-IsRiyals order-journal
      refl refl (λ e. ground (arith, str_eq_iff (text "acc-alice") (text "acc-bob"))) refl refl

compensation_cancels_example : net alice (paid.entries ++ reversed.entries) ≡ pos 0
compensation_cancels_example =
    compensation_cancels 5 9 (text "tx-1") (text "rent") (text "tx-1-comp") order paid reversed
      alice order-IsRiyals order-journal order-reversal

parsed_amount : parse_sar (text " -10.5 ") ≡ ok (riyals_ℤ (negsuc 1049))
unfolding parse_sar sar trim_space split_on byte_len parse_int negate neg64 wrap64 ◌+ℤ◌ ◌*ℤ◌ ◌-ℤ◌
parsed_amount = refl

printed_amount : money_string (riyals_ℤ (negsuc 1049)) ≡ text "-10.50"
unfolding money_string neg64 wrap64 quot64 rem64 format_int format_two ◌+ℤ◌ ◌*ℤ◌ ◌-ℤ◌
printed_amount = refl

-- A second sign is taken by the parser of the whole part.
doubly_signed_amount : parse_sar (text "--5") ≡ ok (riyals_ℤ (pos 500))
unfolding parse_sar sar trim_space split_on byte_len parse_int negate neg64 wrap64 ◌+ℤ◌ ◌*ℤ◌ ◌-ℤ◌
doubly_signed_amount = refl

-- 2^64 and some halalas more: the product and the sum wrap.
wrapped_amount : parse_sar (text "184467440737095517") ≡ ok (riyals_ℤ (pos 84))
unfolding parse_sar sar trim_space split_on byte_len parse_int negate neg64 wrap64 ◌+ℤ◌ ◌*ℤ◌ ◌-ℤ◌
wrapped_amount = refl

sub-ExactMoney_example :
    ExactMoney (pos 500 -ℤ pos 20) (sar_of 500) (sar_of 20) (sub (sar_of 500) (sar_of 20))
sub-ExactMoney_example = sub-ExactMoney (sar_of 500) (sar_of 20) (omega arith) (omega arith)

apply_entries_exact_example :
    apply_entries alice (riyals_ℤ (pos 5)) deposit_lines
    ≡ ok (riyals_ℤ (pos 5 +ℤ net alice deposit_lines))
unfolding str_eq
apply_entries_exact_example =
    apply_entries_exact alice (pos 5) deposit_lines deposit-postings (omega arith) (omega arith)
