-- ===== src/Platform/Handlers.antt =====
-- internal/platform/http/handlers/transfers.go and accounts.go: the HTTP endpoints.
use banking_plateform.Base.{
  not, ◌||◌, Bool, List, map, Str, text, is_empty, Option, ℕ, ◌⊎◌, inl, inr,
}
use banking_plateform.Shared.Errors.{Error, Result, ok, err, domain, validation, ErrorCode}
use banking_plateform.Shared.Errors as Errors
use banking_plateform.Shared.Json.{Json, object, malformed, field}
use banking_plateform.Shared.Money.Text.{parse_sar, money_string}
use banking_plateform.Ledger.Account.{
  Account, AccountType, account_type_of, is_valid_type, new_account,
}
use banking_plateform.Ledger.Entry.{Entry, EntrySide}
use banking_plateform.Ledger.Repository.{create_account, list_entries_by_account}
use banking_plateform.Transfer.Command.{Command, TransferResult}
use banking_plateform.Transfer.Service.{
  Ports, Status, execute, get_status_by_transaction_id, get_status_by_idempotency_key,
}
use banking_plateform.Platform.Poster.{balance_text_for}
use banking_plateform.Platform.HttpErrors.{Response, write_error}
use banking_plateform.Storage.{World}
use banking_plateform.Storage.Monad.{M, pure, lift, when, ◌>>=◌, ◌>>◌}

-- An answer: an error body, or the endpoint's own.
abbrev pub Answer : Type 0 → Type 0
Answer A = Response (Option ErrorCode ⊎ A)

abbrev pub as_answer : {A : Type 0} → ℕ → Result A → Answer A
as_answer status (ok a) = record { status = status; body = inr a }
as_answer status (err e) = record {
  status = (write_error e).status;
  body = inl (write_error e).body;
}

abbrev pub respond : {A : Type 0} → ℕ → M A → World → Answer A × World
respond status m w = let (r, w') = m w in (as_answer status r, w')

-- `json.NewDecoder(r.Body).Decode(&req)`
abbrev pub decode_body : Json → Result (List (Str × Str))
decode_body (object fs) = ok fs
decode_body (malformed s) = err (domain validation)

unfoldable pub command_of_request : Str → List (Str × Str) → Result Command
command_of_request idempotency_key fs =
    Errors.◌>>=◌ (parse_sar (field (text "amount") fs)) λ amount. ok (record {
      idempotency_key = idempotency_key;
      from_account_id = field (text "from_account_id") fs;
      to_account_id = field (text "to_account_id") fs;
      amount = amount;
      beneficiary_iban = field (text "beneficiary_iban") fs;
      beneficiary_name = field (text "beneficiary_name") fs;
      description = field (text "description") fs;
    })

-- `TransferHandler.Create`
unfoldable pub create_transfer : Ports → Str → Json → World → Answer TransferResult × World
create_transfer ports idempotency_key body = respond 201 (do
  fs ← lift (decode_body body)
  cmd ← lift (command_of_request idempotency_key fs)
  execute ports cmd)

-- `TransferHandler.GetByTransactionID`
unfoldable pub get_by_transaction_id : Str → World → Answer Status × World
get_by_transaction_id id =
    respond 200 (do when (is_empty id) (domain validation); get_status_by_transaction_id id)

-- `TransferHandler.GetByIdempotencyKey`
unfoldable pub get_by_idempotency_key : Str → World → Answer Status × World
get_by_idempotency_key key =
    respond 200 (do when (is_empty key) (domain validation); get_status_by_idempotency_key key)

-- `parseAccountType`
unfoldable pub parse_account_type : Str → Result AccountType
parse_account_type raw =
    Errors.◌>>◌ (Errors.fail_if (not (is_valid_type (account_type_of raw))) (domain validation))
      (ok (account_type_of raw))

abbrev pub lacks_a_field : List (Str × Str) → Bool
lacks_a_field fs =
    is_empty (field (text "id") fs)
    || is_empty (field (text "name") fs)
    || is_empty (field (text "account_type") fs)

-- `NewAccount` and `CreateAccount`, with the type that was read.
unfoldable pub open_account : List (Str × Str) → AccountType → M Account
open_account fs typ = do
  account ← lift (new_account (field (text "id") fs) typ (field (text "name") fs))
  create_account account
  pure account

-- `AccountHandler.Create`
unfoldable pub create_account_endpoint : Json → World → Answer Account × World
create_account_endpoint body = respond 201 (do
  fs ← lift (decode_body body)
  when (lacks_a_field fs) (domain validation)
  typ ← lift (parse_account_type (field (text "account_type") fs))
  open_account fs typ)

-- `AccountHandler.GetBalance`
unfoldable pub get_balance_endpoint : Str → World → Answer Str × World
get_balance_endpoint account_id = respond 200 (balance_text_for account_id)

-- The line of one entry: id, account, side and printed amount.
pub record EntryView : Type 0 where
  pub id : Str
  pub account_id : Str
  pub side : EntrySide
  pub amount : Str

abbrev pub entry_view : Entry → EntryView
entry_view e = record {
  id = e.id;
  account_id = e.account_id;
  side = e.side;
  amount = money_string e.amount;
}

-- `AccountHandler.ListEntries`
unfoldable pub list_entries_endpoint : Str → World → Answer (List EntryView) × World
list_entries_endpoint account_id =
    respond 200 (do entries ← list_entries_by_account account_id; pure (map entry_view entries))
