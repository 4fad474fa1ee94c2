-- ===== src/Mbus/Frame.antt =====
-- src/mbus/frame.rs: the four frame formats of EN 13757-2, parsed, packed and checked.
-- A byte is a number below 256 and a slice is a list. The checksum is the scalar loop of
-- src/mbus/simd.rs, which `calculate_checksum_optimized` runs on a processor with no vector unit
-- and on every input below 16 bytes.
pub mod Checksum
pub mod RoundTrip
mod Invert
pub mod Canonical
mod Tests
use mbuscrate.Prelude.{
  ℕ, zero, suc, ◌+◌, ◌-◌, ◌%◌, ◌^◌, List, [], ◌∷◌, ◌++◌, Bool, true, false, not, Option, none, some,
  ◌==◌, if◌then◌else◌, length, min, Result, ok, err, ◌>>=◌, ◌>>◌, guard,
}
use mathlib.Core.Option.{get_or}
use mbuscrate.Nom.{Nom, IResult, NomErr, error, tag, any_byte}
use mbuscrate.Mbus.Error.{MBusError, invalid_checksum}

pub data MBusFrameType : Type 0 where
  ack short control long : MBusFrameType

-- `MBusFrame`; `bytes` is its field `data`.
pub record MBusFrame : Type 0 where
  pub frame_type : MBusFrameType
  pub control_field : ℕ
  pub address : ℕ
  pub control_information : ℕ
  pub bytes : List ℕ
  pub checksum : ℕ
  pub more_records_follow : Bool

-- `calculate_checksum_scalar`: `acc.wrapping_add(b)` folded over the slice.
unfoldable pub checksum_from : ℕ → List ℕ → ℕ
checksum_from acc [] = acc
checksum_from acc (b ∷ bs) = checksum_from ((acc + b) % 2 ^ 8) bs

unfoldable pub calculate_mbus_checksum : List ℕ → ℕ
unfolding checksum_from
calculate_mbus_checksum bytes = checksum_from 0 bytes

unfoldable pub checksum_of : MBusFrameType → MBusFrame → ℕ
checksum_of short f = calculate_mbus_checksum (f.control_field ∷ f.address ∷ [])
checksum_of control f =
    calculate_mbus_checksum (f.control_field ∷ f.address ∷ f.control_information ∷ [])
checksum_of long f =
    calculate_mbus_checksum (f.control_field ∷ f.address ∷ f.control_information ∷ f.bytes)
checksum_of ack f = 0

-- `match frame.frame_type`.
unfoldable pub calculate_checksum : MBusFrame → ℕ
unfolding checksum_of
calculate_checksum f = checksum_of f.frame_type f

unfoldable pub verify_frame : MBusFrame → Result MBusError (Unit {0})
verify_frame f =
    if f.checksum == calculate_checksum f
    then ok tt
    else err (invalid_checksum f.checksum (calculate_checksum f))

-- The length byte is `(len + 3).min(255) as u8`.
unfoldable pub pack_control_or_long_frame : MBusFrame → List ℕ
pack_control_or_long_frame f =
    let size = min (length f.bytes + 3) 255 in
    (0x68 ∷ size ∷ size ∷ 0x68 ∷ f.control_field ∷ f.address ∷ f.control_information ∷ f.bytes)
    ++ (calculate_checksum f ∷ 0x16 ∷ [])

unfoldable pub pack_as : MBusFrameType → MBusFrame → List ℕ
pack_as ack f = 0xE5 ∷ []
pack_as short f = 0x10 ∷ f.control_field ∷ f.address ∷ calculate_checksum f ∷ 0x16 ∷ []
pack_as control f = pack_control_or_long_frame f
pack_as long f = pack_control_or_long_frame f

unfoldable pub pack_frame : MBusFrame → List ℕ
unfolding pack_as pack_control_or_long_frame
pack_frame f = pack_as f.frame_type f

module _ (nom : Nom) where
  open nom use {be_u8, take_while_m_n}

  -- The arm `0x68` of `parse_frame_type`.
  pub parse_lengths : List ℕ → IResult (MBusFrameType × Option ℕ)
  parse_lengths input = do
    (input, length1) ← be_u8 input
    (input, length2) ← be_u8 input
    guard (length1 == length2) (error input tag)
    ok (input, ((if length1 == 3 then control else long), some length1))

  -- `match start`.
  pub parse_start : ℕ → List ℕ → IResult (MBusFrameType × Option ℕ)
  parse_start start input =
      if start == 0xE5
      then ok (input, (ack, none))
      else if start == 0x10
      then ok (input, (short, none))
      else if start == 0x68
      then parse_lengths input
      else err (error input tag)

  pub parse_frame_type : List ℕ → IResult (MBusFrameType × Option ℕ)
  unfolding parse_lengths parse_start
  parse_frame_type input = do (input, start) ← be_u8 input; parse_start start input

  -- The checksum and the stop byte, with which both formats end.
  pub parse_trailer : List ℕ → IResult ℕ
  parse_trailer input = do
    (input, checksum) ← be_u8 input
    (input, stop) ← be_u8 input
    guard (stop == 0x16) (error input tag)
    ok (input, checksum)

  pub parse_short_frame : List ℕ → IResult (ℕ × List ℕ × ℕ)
  unfolding parse_trailer
  parse_short_frame input = do
    (input, checksum) ← parse_trailer input
    ok (input, (0, [], checksum))

  -- `saturating_sub` is the subtraction of ℕ.
  pub parse_control_or_long_frame_after_header : List ℕ → ℕ → IResult (ℕ × List ℕ × ℕ)
  unfolding parse_trailer
  parse_control_or_long_frame_after_header input length1 = do
    (input, control_information) ← be_u8 input
    let payload_len = length1 - 3
    (input, bytes) ← take_while_m_n payload_len payload_len any_byte input
    (input, checksum) ← parse_trailer input
    ok (input, (control_information, bytes, checksum))

  -- The arm `Control | Long` of `parse_frame`.
  pub parse_long_arm : MBusFrameType → ℕ → List ℕ → IResult MBusFrame
  parse_long_arm frame_type len1 input = do
    (i, start2) ← be_u8 input
    guard (start2 == 0x68) (error i tag)
    (i, control_field) ← be_u8 i
    (i, address) ← be_u8 i
    (i, (control_information, bytes, checksum)) ← parse_control_or_long_frame_after_header i len1
    ok (
      i,
      record {
        frame_type = frame_type;
        control_field = control_field;
        address = address;
        control_information = control_information;
        bytes = bytes;
        checksum = checksum;
        more_records_follow = false;
      },
    )

  pub parse_frame_as : MBusFrameType → Option ℕ → List ℕ → IResult MBusFrame
  parse_frame_as ack len1_opt input = ok (
    input,
    record {
      frame_type = ack;
      control_field = 0;
      address = 0;
      control_information = 0;
      bytes = [];
      checksum = 0;
      more_records_follow = false;
    },
  )
  parse_frame_as short len1_opt input = do
    (i, control_field) ← be_u8 input
    (i, address) ← be_u8 i
    (i, (ci, bytes, checksum)) ← parse_short_frame i
    ok (
      i,
      record {
        frame_type = short;
        control_field = control_field;
        address = address;
        control_information = 0;
        bytes = bytes;
        checksum = checksum;
        more_records_follow = false;
      },
    )
  parse_frame_as control len1_opt input = parse_long_arm control (get_or len1_opt 3) input
  parse_frame_as long len1_opt input = parse_long_arm long (get_or len1_opt 3) input

  pub parse_frame : List ℕ → IResult MBusFrame
  unfolding parse_frame_as parse_long_arm
  parse_frame input = do
    (input, (frame_type, len1_opt)) ← parse_frame_type input
    parse_frame_as frame_type len1_opt input
