-- ===== src/Platform/Poster.antt =====
-- internal/ledger/app/poster.go: the ledger's application service.
use banking_plateform.Base.{not, Str}
use banking_plateform.Shared.Errors.{domain, unbalanced_transaction}
use banking_plateform.Shared.Money.Text.{money_string}
use banking_plateform.Ledger.Account.{Account}
use banking_plateform.Ledger.Transaction.{Transaction, is_balanced}
use banking_plateform.Ledger.Repository.{
  post_transaction, get_account, get_balance, verify_global_ledger_balanced,
}
use banking_plateform.Storage.Monad.{M, annotating, pure, when, ◌>>=◌, ◌>>◌}

-- `Poster.Post`
unfoldable pub post_balanced : Transaction → M (Unit {0})
post_balanced tx = do
  when (not (is_balanced tx)) (domain unbalanced_transaction)
  post_transaction tx

-- `Poster.GetBalance`
unfoldable pub balance_text : Account → M Str
balance_text account = do bal ← get_balance account; pure (money_string bal)

-- `Poster.GetBalanceForAccount`
unfoldable pub balance_text_for : Str → M Str
balance_text_for account_id = do account ← get_account account_id; balance_text account

-- `Poster.VerifyBooks`
unfoldable pub verify_books : M (Unit {0})
verify_books = annotating verify_global_ledger_balanced
