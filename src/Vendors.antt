-- ===== src/Vendors.antt =====
-- Vendors: src/vendors.
pub mod Manufacturer
