-- ===== src/Wmbus/DecodeError.antt =====
-- `FrameType` and `DecodeError` of src/wmbus/frame_decode.rs.
use mbuscrate.Prelude.{ℕ}

pub data FrameType : Type 0 where
  type_a type_b unknown : FrameType

-- `ProcessingError` carries only a text for people.
pub data DecodeError : Type 0 where
  buffer_too_short crc_mismatch : ℕ → ℕ → DecodeError
  frame_too_short : FrameType → ℕ → DecodeError
  invalid_length : ℕ → DecodeError
  invalid_block_size : ℕ → ℕ → ℕ → DecodeError
  invalid_header encryption_detected processing_error : DecodeError
