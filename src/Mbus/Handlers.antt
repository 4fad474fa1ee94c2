-- ===== src/Mbus/Handlers.antt =====
-- src/mbus/mbus_protocol.rs: the handlers of frames and records beside the state machine. Nothing wires a
-- transport to them, so sending and receiving are errors.
pub mod Frames
pub mod First
mod Tests
use mbuscrate.Prelude.{
  ℕ, ◌+◌, ◌%◌, ◌^◌, List, [], ◌∷◌, ◌++◌, Bool, true, false, ◌==◌, if◌then◌else◌, Result, ok, err,
  ◌>>=◌, none, some, Option,
}
use mbuscrate.Nom.{Nom, IResult, incomplete, error, failure}
use mbuscrate.Mbus.Error.{MBusError, other, frame_parse_error}
use mbuscrate.Mbus.Frame.{MBusFrame, short, parse_frame as parse_mbus_frame}
use mbuscrate.Payload.Record.{MBusRecord, parse_variable_record}
use mbuscrate.Payload.Record.Fixed.{parse_fixed_record}

pub record FrameHandler : Type 0 where
  pub frame_cache : List MBusFrame

-- `match` on what the frame parser says of the input.
abbrev handle_parsed :
    FrameHandler → IResult MBusFrame → Result MBusError (Option MBusFrame) × FrameHandler
handle_parsed h (ok ([], frame)) = (ok (some frame), h)
handle_parsed h (ok (b ∷ bs, frame)) =
    (ok none, record { frame_cache = h.frame_cache ++ frame ∷ [] })
handle_parsed h (err incomplete) = (ok none, h)
handle_parsed h (err (error i kind)) = (err frame_parse_error, h)
handle_parsed h (err (failure i kind)) = (err frame_parse_error, h)

-- The checksum of a short frame is a `u8` sum that wraps.
pub create_request_frame : ℕ → Result MBusError MBusFrame
create_request_frame address = ok (record {
  frame_type = short;
  control_field = 0x5B;
  address = address;
  control_information = 0;
  bytes = [];
  checksum = (0x5B + address) % 2 ^ 8;
  more_records_follow = false;
})

module _ (nom : Nom) where
  pub parse_frame : List ℕ → FrameHandler → Result MBusError (Option MBusFrame) × FrameHandler
  parse_frame input h = handle_parsed h (parse_mbus_frame nom input)

  -- The first record, if it can be parsed.
  abbrev first_record : Option (Result MBusError MBusRecord) → Option (List MBusRecord)
  first_record none = none
  first_record (some (ok r)) = some (r ∷ [])
  first_record (some (err e)) = some []

  -- The loop, which leaves at the first byte that is no idle filler.
  pub variable_records : List ℕ → Option (List MBusRecord)
  variable_records [] = some []
  variable_records (b ∷ bs) =
      let later = variable_records bs in
      if b == 0x2F then later else first_record (parse_variable_record nom (b ∷ bs))

  abbrev all_ok : Option (List MBusRecord) → Option (Result MBusError (List MBusRecord))
  all_ok none = none
  all_ok (some records) = some (ok records)

  abbrev only_one :
      Option (Result MBusError MBusRecord) → Option (Result MBusError (List MBusRecord))
  only_one none = none
  only_one (some (ok r)) = some (ok (r ∷ []))
  only_one (some (err e)) = some (err e)

  pub parse_records : MBusFrame → Option (Result MBusError (List MBusRecord))
  unfolding variable_records
  parse_records frame =
      if frame.control_information == 0x72
      then all_ok (variable_records frame.bytes)
      else if frame.control_information == 0x73
      then only_one (parse_fixed_record nom frame.bytes)
      else some (ok [])
