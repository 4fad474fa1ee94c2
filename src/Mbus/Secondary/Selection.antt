-- ===== src/Mbus/Secondary/Selection.antt =====
-- The frames that select by a secondary address, against the frame layer.
use mbuscrate.Prelude.{ℕ, List, false}
use mbuscrate.Nom.{Nom}
use mbuscrate.Mbus.Frame.{MBusFrame, long}

-- A frame that sends user data to the address 253.
abbrev pub selection : ℕ → List ℕ → MBusFrame
selection ci bytes = record {
  frame_type = long;
  control_field = 0x53;
  address = 0xFD;
  control_information = ci;
  bytes = bytes;
  checksum = 0;
  more_records_follow = false;
}
