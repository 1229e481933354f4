-- ===== src/Ledger.antt =====
-- internal/ledger: accounts, entries, journal transactions, balances, and their storage.
pub mod Account
pub mod Entry
pub mod Transaction
pub mod Balance
pub mod Repository
pub mod Keeps
