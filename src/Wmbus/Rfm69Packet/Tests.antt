-- ===== src/Wmbus/Rfm69Packet/Tests.antt =====
-- The theorems on packets at concrete inputs.
use mbuscrate.Prelude.{ℕ, ◌≡◌, refl, List, [], ◌∷◌, ◌++◌, ok, map, arith, IsByte-All}
use mbuscrate.Util.BitRev.{rev8}
use mbuscrate.Wmbus.Crc.{
  calculate_wmbus_crc, crc_loop, crc_step, build_table, build_table_from, crc_bits, crc_bit,
}
use mbuscrate.Wmbus.Frame.{add_wmbus_crc}
use mbuscrate.Wmbus.ModeC.Sender.{Header, concat, data_bytes, type_a_frame}
use mbuscrate.Wmbus.Rfm69Packet.{new}
use mbuscrate.Wmbus.Rfm69Packet.Buffer.{push_bytes, receive, after_packet, receive-type_a_frame}

abbrev header : Header
header = record {
  control_field = 0x44;
  manufacturer_id = 0x2C2D;
  device_address = 74644444;
  version = 0x1B;
  device_type = 0x16;
}

-- A payload of 17 bytes, and one of two.
abbrev blocks : List (List ℕ)
blocks =
    (0x7A ∷ 1 ∷ 2 ∷ 3 ∷ 4 ∷ 5 ∷ 6 ∷ 7 ∷ 8 ∷ 9 ∷ 10 ∷ 11 ∷ 12 ∷ 13 ∷ 14 ∷ 15 ∷ []) ∷ (0xFF ∷ []) ∷ []

abbrev short_payload : List ℕ
short_payload = 0x8D ∷ 0x20 ∷ []

-- A CI byte at the end.
abbrev eleven : List ℕ
eleven = 0 ∷ 0 ∷ 0 ∷ 0 ∷ 0 ∷ 0 ∷ 0 ∷ 0 ∷ 0 ∷ 0 ∷ 0x7A ∷ []

receive-type_a_frame_example :
    receive (push_bytes (map rev8 (type_a_frame header (short_payload ∷ []) ++ (0xCD ∷ []))) new)
    ≡ (ok (type_a_frame header (short_payload ∷ [])), after_packet (0xCD ∷ []) new)
unfolding type_a_frame concat data_bytes add_wmbus_crc new calculate_wmbus_crc crc_loop crc_step
    build_table build_table_from crc_bits crc_bit
receive-type_a_frame_example =
    receive-type_a_frame new header (short_payload ∷ []) (0xCD ∷ []) refl refl (omega arith) refl
      (IsByte-All (type_a_frame header (short_payload ∷ []) ++ (0xCD ∷ [])) refl)
