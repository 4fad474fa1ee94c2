-- ===== src/Wmbus/FrameDecode/Tests.antt =====
-- The theorems on the streaming decoder at concrete inputs.
use mbuscrate.Prelude.{ℕ, ◌≡◌, List, [], ◌∷◌, Option, some, Result}
use mbuscrate.Wmbus.DecodeError.{DecodeError}
use mbuscrate.Wmbus.Frame.{WmBusFrame}
use mbuscrate.Wmbus.ModeC.Sender.{Header, type_a_frame, type_b_frame}
use mbuscrate.Wmbus.FrameDecode.{new, try_decode_frame, try_rounds}
use mbuscrate.Wmbus.FrameDecode.Rounds.{try_decode_frame_ends}

abbrev header : Header
header = record {
  control_field = 0x44;
  manufacturer_id = 0x2C2D;
  device_address = 74644444;
  version = 0x1B;
  device_type = 0x16;
}

abbrev payload : List ℕ
payload = 0x7A ∷ 1 ∷ 2 ∷ 3 ∷ []

-- The first bytes of the frames, in two chunks, and the bytes of another frame behind them.
abbrev chunks_a : List (List ℕ)
chunks_a = (0xCD ∷ []) ∷ (13 ∷ 0x44 ∷ []) ∷ []

abbrev chunks_b : List (List ℕ)
chunks_b = (0x3D ∷ []) ∷ (15 ∷ 0x44 ∷ []) ∷ []

abbrev next_bytes : List ℕ
next_bytes = 0xCD ∷ 13 ∷ []

abbrev frame_a : List ℕ
frame_a = type_a_frame header (payload ∷ [])

abbrev frame_b : List ℕ
frame_b = type_b_frame header payload

try_decode_frame_ends_example :
    (out : Result DecodeError (Option WmBusFrame)) × ((try_decode_frame new).0 ≡ some out)
    × (try_rounds 7 new ≡ try_decode_frame new)
try_decode_frame_ends_example = try_decode_frame_ends new 5
