-- ===== src/Mbus/Error.antt =====
-- `MBusError` of src/error.rs. A constructor that carries only a text for people carries nothing
-- here: no modelled code reads it.
use mbuscrate.Prelude.{ℕ}

pub data MBusError : Type 0 where
  serial_port_error frame_parse_error : MBusError
  unknown_vif unknown_vife unknown_dif : ℕ → MBusError
  invalid_hex_string invalid_manufacturer invalid_manufacturer_id : MBusError
  vif_too_long nom_error device_discovery_error : MBusError
  invalid_checksum : ℕ → ℕ → MBusError
  premature_end_at_data other wmbus_error : MBusError
