-- ===== src/Mbus.antt =====
-- The wired M-Bus link layer: src/mbus.
pub mod Error
pub mod Frame
pub mod Protocol
pub mod Handlers
pub mod Secondary
pub mod Walk
