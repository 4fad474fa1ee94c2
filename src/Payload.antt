-- ===== src/Payload.antt =====
-- Payload encodings and records: src/payload.
pub mod Chains
pub mod Encoding
pub mod Record
