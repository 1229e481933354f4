-- ===== src/Outbox.antt =====
-- internal/outbox: staged events and the relay.
pub mod Event
pub mod Repository
pub mod Relay
pub mod Adapters
pub mod Rows
