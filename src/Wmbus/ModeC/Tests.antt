-- ===== src/Wmbus/ModeC/Tests.antt =====
-- The theorems on mode C at concrete inputs.
use mbuscrate.Prelude.{ℕ, ◌≡◌, refl, List, [], ◌∷◌, ◌++◌, ok, arith}
use mbuscrate.Wmbus.DecodeError.{type_a}
use mbuscrate.Wmbus.ModeC.{decode_mode_c}
use mbuscrate.Wmbus.ModeC.Sender.{Header, concat, type_a_frame, received}
use mbuscrate.Wmbus.ModeC.TypeA.{decode_mode_c-type_a_frame}

abbrev header : Header
header = record {
  control_field = 0x44;
  manufacturer_id = 0x2C2D;
  device_address = 74644444;
  version = 0x1B;
  device_type = 0x16;
}

-- A whole block and a short one.
abbrev blocks : List (List ℕ)
blocks =
    (0x7A ∷ 1 ∷ 2 ∷ 3 ∷ 4 ∷ 5 ∷ 6 ∷ 7 ∷ 8 ∷ 9 ∷ 10 ∷ 11 ∷ 12 ∷ 13 ∷ 14 ∷ 15 ∷ []) ∷ (0xFF ∷ []) ∷ []

decode_mode_c-type_a_frame_example :
    decode_mode_c (type_a_frame header blocks ++ (0 ∷ []))
    ≡ ok (received type_a header (concat blocks))
decode_mode_c-type_a_frame_example =
    decode_mode_c-type_a_frame header blocks (0 ∷ []) (omega arith) (refl, omega arith)
