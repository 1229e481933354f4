-- ===== src/Screening.antt =====
-- The screens before a transfer: internal/fraud and internal/compliance.
pub mod Fraud
pub mod Compliance
