-- ===== src/Idempotency.antt =====
-- internal/idempotency: keys, records, the store and the guard.
pub mod Key
pub mod Store
pub mod Guard
pub mod Record
