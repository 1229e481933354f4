-- ===== src/Tests.antt =====
-- Concrete runs, and the theorems applied at them.
mod Books
mod Calls
mod Events
mod Amounts
mod Replays
mod Systems
mod Racing
mod Observing
mod Ibans
mod Histories
mod Stalling
mod Starting
mod Interleaving
mod Refunds
