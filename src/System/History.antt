-- ===== src/System/History.antt =====
-- What the tables record stays recorded: later states only add to it.
pub mod Updates
pub mod Writes
pub mod Taken
pub mod Once
pub mod Refund
use mathlib.Core.List.{append-nil, append_assoc, map-append}
use banking_plateform.Base.{
  ◌≡◌, refl, sym, ap, ◌∙◌, ℕ, List, [], ◌∷◌, ◌++◌, map, Str, str_eq, Bool-cases, inl, inr, arith,
}
use banking_plateform.Base.Int.{ℤ}
use banking_plateform.Outbox.Event.{Event}
use banking_plateform.Shared.Json.{Json}
use banking_plateform.Storage.{Db, World, TransactionRow, EntryRow}
use banking_plateform.Ledger.Account.{Account}
use banking_plateform.Platform.Audit.{AuditEntry}
use banking_plateform.Transfer.Saga.{SagaRecord, SettlementRecord}

-- The second list is the first with more behind it.
abbrev pub Extends {ℓ} : {A : Type ℓ} → List A → List A → Type ℓ
Extends {A} xs ys = (more : List A) × (ys ≡ xs ++ more)

module _ {ℓ} {A : Type ℓ} where
  pub Extends-refl : (xs : List A) → Extends xs xs
  Extends-refl xs = ([], sym (append-nil xs))

  pub Extends-append : (xs ys zs : List A) → Extends xs ys → Extends xs (ys ++ zs)
  Extends-append xs ys zs (more, e) = (more ++ zs, rw e (append_assoc xs more zs))

-- The columns that an update leaves alone.
abbrev pub terms : SettlementRecord → Str × Str × Str × ℤ × Str × ℕ
terms s = (s.id, s.saga_id, s.beneficiary_iban, s.amount_halalas, s.currency, s.created_at)

abbrev pub command_of : SagaRecord → Str × Str × Json × ℕ
command_of s = (s.id, s.idempotency_key, s.command_json, s.created_at)

abbrev pub message : Event → Str × Str × Str × Str × Json × ℕ
message e = (e.id, e.aggregate_type, e.aggregate_id, e.event_type, e.payload, e.created_at)

-- What was stored is still stored, in its place, with the columns that are never updated.
pub record IsLater (base db : Db) : Type 0 where
  pub accounts : Extends base.accounts db.accounts
  pub transactions : Extends base.transactions db.transactions
  pub entries : Extends base.entries db.entries
  pub audit : Extends base.audit db.audit
  pub outbox : Extends (map message base.outbox) (map message db.outbox)
  pub sagas : Extends (map command_of base.sagas) (map command_of db.sagas)
  pub settlements : Extends (map terms base.settlements) (map terms db.settlements)

pub IsLater-refl : (db : Db) → IsLater db db
IsLater-refl db = record {
  accounts = Extends-refl db.accounts;
  transactions = Extends-refl db.transactions;
  entries = Extends-refl db.entries;
  audit = Extends-refl db.audit;
  outbox = Extends-refl (map message db.outbox);
  sagas = Extends-refl (map command_of db.sagas);
  settlements = Extends-refl (map terms db.settlements);
}

-- A row behind the others.
pub Extends-row {ℓ κ} :
    {A : Type ℓ} {B : Type κ} (f : A → B) (xs : List B) (ys : List A) (y : A)
    → Extends xs (map f ys)
    → Extends xs (map f (ys ++ y ∷ []))
Extends-row f xs ys y h = rw map-append (Extends-append xs (map f ys) (f y ∷ []) h)

module _ {base db : Db} (h : IsLater base db) where
  pub with_account : (a : Account) → IsLater base (record db { accounts = db.accounts ++ a ∷ [] })
  with_account a = record {
    accounts = Extends-append base.accounts db.accounts (a ∷ []) h.accounts;
    transactions = h.transactions;
    entries = h.entries;
    audit = h.audit;
    outbox = h.outbox;
    sagas = h.sagas;
    settlements = h.settlements;
  }

  pub with_header :
      (t : TransactionRow) → IsLater base (record db { transactions = db.transactions ++ t ∷ [] })
  with_header t = record {
    accounts = h.accounts;
    transactions = Extends-append base.transactions db.transactions (t ∷ []) h.transactions;
    entries = h.entries;
    audit = h.audit;
    outbox = h.outbox;
    sagas = h.sagas;
    settlements = h.settlements;
  }

  pub with_line : (r : EntryRow) → IsLater base (record db { entries = db.entries ++ r ∷ [] })
  with_line r = record {
    accounts = h.accounts;
    transactions = h.transactions;
    entries = Extends-append base.entries db.entries (r ∷ []) h.entries;
    audit = h.audit;
    outbox = h.outbox;
    sagas = h.sagas;
    settlements = h.settlements;
  }

  pub with_log : (e : AuditEntry) → IsLater base (record db { audit = db.audit ++ e ∷ [] })
  with_log e = record {
    accounts = h.accounts;
    transactions = h.transactions;
    entries = h.entries;
    audit = Extends-append base.audit db.audit (e ∷ []) h.audit;
    outbox = h.outbox;
    sagas = h.sagas;
    settlements = h.settlements;
  }

  pub with_outbox :
      (events : List Event)
      → Extends (map message base.outbox) (map message events)
      → IsLater base (record db { outbox = events })
  with_outbox events o = record {
    accounts = h.accounts;
    transactions = h.transactions;
    entries = h.entries;
    audit = h.audit;
    outbox = o;
    sagas = h.sagas;
    settlements = h.settlements;
  }

  pub with_sagas :
      (rows : List SagaRecord)
      → Extends (map command_of base.sagas) (map command_of rows)
      → IsLater base (record db { sagas = rows })
  with_sagas rows s = record {
    accounts = h.accounts;
    transactions = h.transactions;
    entries = h.entries;
    audit = h.audit;
    outbox = h.outbox;
    sagas = s;
    settlements = h.settlements;
  }

  pub with_settlements :
      (rows : List SettlementRecord)
      → Extends (map terms base.settlements) (map terms rows)
      → IsLater base (record db { settlements = rows })
  with_settlements rows s = record {
    accounts = h.accounts;
    transactions = h.transactions;
    entries = h.entries;
    audit = h.audit;
    outbox = h.outbox;
    sagas = h.sagas;
    settlements = s;
  }
