-- ===== src/Settlement/Reconcile.antt =====
-- internal/settlement/app/reconcile.go
use banking_plateform.Base.{Bool, true, not, Option, none, some}
use banking_plateform.Shared.Errors.{Error, is_domain_code, validation}
use banking_plateform.Ledger.Repository.{verify_global_ledger_balanced}
use banking_plateform.Storage.Monad.{M, annotating}

-- `Reconciler.Run`
unfoldable pub reconcile : M (Unit {0})
reconcile = annotating verify_global_ledger_balanced

-- `IsBalanced`
unfoldable pub is_balanced_answer : Option Error → Bool
is_balanced_answer none = true
is_balanced_answer (some e) = not (is_domain_code e validation)
