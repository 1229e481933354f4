-- ===== src/Ledger/Keeps.antt =====
-- What keeps the ledger sound: a posting inside a transaction, and all that avoids its tables.
use banking_plateform.Base.{◌≡◌, All}
use banking_plateform.Ledger.Entry.{IsLine}
use banking_plateform.Ledger.Transaction.{Transaction}
use banking_plateform.Ledger.Repository.{post_transaction_in_tx}
use banking_plateform.Ledger.Repository.Invariant.{IsSound, post_transaction_in_tx-IsSound}
use banking_plateform.Storage.{Db, World}
use banking_plateform.Storage.Monad.{M}
use banking_plateform.Storage.Keeps.{Keeps, KeepsOk}

-- The tables of the ledger are the same.
pub record SameLedger (db after : Db) : Type 0 where
  pub entries : after.entries ≡ db.entries
  pub accounts : after.accounts ≡ db.accounts

pub IsSound-same : {db after : Db} → SameLedger db after → IsSound db → IsSound after
IsSound-same s h = record {
  stored = rw s.entries h.stored;
  tied = rw s.entries h.tied;
  covered = rw (s.entries, s.accounts) h.covered;
}

-- The call writes nothing in the ledger's tables.
pub record Avoids {ℓ} {A : Type ℓ} (m : M A) : Type ℓ where
  pub at : (w : World) → SameLedger w.db (m w).1.db

pub Avoids-Keeps {ℓ} : {A : Type ℓ} {m : M A} → Avoids m → Keeps IsSound m
Avoids-Keeps a = record { at = λ w h. IsSound-same (a.at w) h }

pub post_transaction_in_tx-KeepsOk :
    (tx : Transaction) → All IsLine tx.entries → KeepsOk IsSound (post_transaction_in_tx tx)
post_transaction_in_tx-KeepsOk tx l = record {
  at = λ w e h. post_transaction_in_tx-IsSound tx w l h e;
}
