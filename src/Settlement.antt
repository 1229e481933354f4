-- ===== src/Settlement.antt =====
-- internal/settlement: the processor of pending settlements, and reconciliation.
pub mod Processor
pub mod Reconcile
pub mod Sarie
