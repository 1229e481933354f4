-- ===== src/Platform/Views.antt =====
-- internal/platform/http/handlers: the JSON bodies of the endpoints.
use banking_plateform.Base.{List, [], ◌∷◌, ◌++◌, map, Str, text, is_empty, if◌then◌else◌, inl, inr}
use banking_plateform.Shared.Money.Text.{money_string}
use banking_plateform.Ledger.Account.{
  Account, AccountType, asset, liability, equity, revenue, expense,
}
use banking_plateform.Ledger.Entry.{EntrySide, debit, credit}
use banking_plateform.Transfer.Command.{TransferResult}
use banking_plateform.Transfer.Saga.{saga_state_text, settlement_status_text}
use banking_plateform.Transfer.Service.{Status}
use banking_plateform.Platform.Handlers.{Answer, EntryView}
use banking_plateform.Platform.Http.{Body, Value, str, flag, time, rows, failure, Reply, json_reply}

abbrev pub Fields : Type 0
Fields = List (Str × Value)

unfoldable pub account_type_text : AccountType → Str
account_type_text asset = text "ASSET"
account_type_text liability = text "LIABILITY"
account_type_text equity = text "EQUITY"
account_type_text revenue = text "REVENUE"
account_type_text expense = text "EXPENSE"
account_type_text (AccountType.unnamed s) = s

unfoldable pub side_text : EntrySide → Str
side_text debit = text "DEBIT"
side_text credit = text "CREDIT"
side_text (EntrySide.unnamed s) = s

-- `accountResponse`
unfoldable pub account_fields : Account → Fields
account_fields a =
    (text "id", str a.id)
    ∷ (text "name", str a.name)
    ∷ (text "account_type", str (account_type_text a.typ))
    ∷ []

-- `balanceResponse`
unfoldable pub balance_fields : Str → Str → Fields
balance_fields account_id balance =
    (text "account_id", str account_id)
    ∷ (text "balance", str balance)
    ∷ (text "currency", str (text "SAR"))
    ∷ []

-- `entryResponse`
unfoldable pub entry_fields : EntryView → Fields
entry_fields e =
    (text "id", str e.id)
    ∷ (text "account_id", str e.account_id)
    ∷ (text "side", str (side_text e.side))
    ∷ (text "amount", str e.amount)
    ∷ []

-- `transferResponse`
unfoldable pub transfer_fields : TransferResult → Fields
transfer_fields r =
    (text "transaction_id", str r.transaction_id)
    ∷ (text "amount", str (money_string r.amount))
    ∷ (text "from_account_id", str r.from_account_id)
    ∷ (text "to_account_id", str r.to_account_id)
    ∷ (text "saga_id", str r.saga_id)
    ∷ (text "settlement_id", str r.settlement_id)
    ∷ (text "saga_state", str (saga_state_text r.saga_state))
    ∷ (text "settlement_status", str (settlement_status_text r.settlement_status))
    ∷ (text "replayed", flag r.replayed)
    ∷ []

-- A field with `omitempty`.
abbrev pub unless_empty : Str → Str → Fields
unless_empty name s = if is_empty s then [] else (name, str s) ∷ []

-- `transferStatusResponse`, as `writeStatus` fills it.
unfoldable pub status_fields : Status → Fields
status_fields s =
    ((text "saga_id", str s.saga_id)
      ∷ (text "saga_state", str (saga_state_text s.saga_state))
      ∷ unless_empty (text "idempotency_key") s.idempotency_key)
    ++ ((text "transaction_id", str s.transaction_id)
        ∷ (text "settlement_id", str s.settlement_id)
        ∷ (text "settlement_status", str (settlement_status_text s.settlement_status))
        ∷ [])
    ++ unless_empty (text "settlement_error") s.settlement_error
    ++ unless_empty (text "failure_reason") s.failure_reason
    ++ ((text "from_account_id", str s.from_account_id)
        ∷ (text "to_account_id", str s.to_account_id)
        ∷ (text "amount", str (money_string s.amount))
        ∷ (text "beneficiary_iban", str s.beneficiary_iban)
        ∷ (text "created_at", time s.created_at)
        ∷ (text "updated_at", time s.updated_at)
        ∷ [])

-- What a handler writes: the error's body, or its own.
abbrev pub reply_of : {A : Type 0} → (A → Body) → Answer A → Reply
reply_of f a = json_reply a.status (elim a.body [ inl code ↦ failure code | inr x ↦ f x ])

abbrev pub entry_rows : List EntryView → Body
entry_rows es = rows (map entry_fields es)
