-- ===== src/Util.antt =====
-- Helpers of the crate: src/util.
pub mod IoBuffer
pub mod BitRev
