-- ===== src/Wmbus.antt =====
-- Wireless M-Bus: src/wmbus.
pub mod Crc
pub mod ChannelHopping
pub mod CompactCache
pub mod Crypto
pub mod Block
pub mod DecodeError
pub mod Frame
pub mod FrameDecode
pub mod ModeC
pub mod ModeSwitching
pub mod Rfm69Packet
pub mod Scheduler
