-- ===== src/Shared.antt =====
-- internal/shared/domain: the error type, 64-bit integers, Go's text functions, money and IBANs.
pub mod Errors
pub mod Int64
pub mod GoText
pub mod Money
pub mod Json
pub mod Iban
pub mod Digest
