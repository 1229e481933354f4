-- ===== src/Transfer.antt =====
-- internal/transfer: commands, the saga, its records and its service.
pub mod Saga
pub mod Command
pub mod SagaStore
pub mod Writes
pub mod Coordinator
pub mod Codec
pub mod Service
