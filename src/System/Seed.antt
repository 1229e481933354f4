-- ===== src/System/Seed.antt =====
-- migrations/000004_seed_and_indexes.up.sql: the database that the migrations leave.
use banking_plateform.Base.{ℕ, [], ◌∷◌, Str, text}
use banking_plateform.Base.Int.{pos}
use banking_plateform.Shared.Money.{currency_sar}
use banking_plateform.Ledger.Account.{Account, asset, liability}
use banking_plateform.Ledger.Entry.{EntrySide, debit, credit}
use banking_plateform.Storage.{Db, EntryRow}

abbrev pub wallet_alice : Account
wallet_alice = record { id = text "wallet-alice"; typ = liability; name = text "Alice Wallet" }

abbrev pub wallet_bob : Account
wallet_bob = record { id = text "wallet-bob"; typ = liability; name = text "Bob Wallet" }

abbrev pub suspense_funding : Account
suspense_funding = record {
  id = text "suspense-funding";
  typ = asset;
  name = text "Suspense Funding";
}

-- A line of 10000000 halalas.
abbrev pub seed_row : ℕ → Str → Account → EntrySide → EntryRow
seed_row now id account side = record {
  entry = record {
    id = id;
    account_id = account.id;
    side = side;
    amount = record { halalas = pos 10000000; currency = currency_sar };
  };
  transaction_id = text "tx-seed-funding";
  created_at = now;
}

-- The tables after the migrations, which run at one time.
unfoldable pub seeded : ℕ → Db
seeded now = record {
  accounts = wallet_alice ∷ wallet_bob ∷ suspense_funding ∷ [];
  transactions =
      record {
        id = text "tx-seed-funding";
        description = text "opening balances for demo wallets";
        recorded_at = now;
      }
      ∷ [];
  entries =
      seed_row now (text "seed-alice-credit") wallet_alice credit
      ∷ seed_row now (text "seed-suspense-debit") suspense_funding debit
      ∷ [];
  outbox = [];
  sagas = [];
  settlements = [];
  audit = [];
}
