-- ===== src/Wmbus/FrameDecode.antt =====
-- src/wmbus/frame_decode.rs: `FrameDecoder`, the bytes of a radio gathered into decoded frames.
-- The log throttle and the texts of errors are left out; the statistics are `u64` and wrap.
pub mod Rounds
pub mod Stream
pub mod Feed
mod Tests
use mbuscrate.Prelude.{
  ℕ, zero, suc, ◌+◌, ◌-◌, ◌%◌, ◌^◌, List, [], ◌∷◌, Bool, true, false, not, ◌||◌, ◌==◌, ltb,
  if◌then◌else◌, length, get_or, drop, Result, ok, err, Option, none, some, ℤ, pos, negsuc,
}
use mbuscrate.Util.IoBuffer
use mbuscrate.Util.IoBuffer.{IoBuffer, IoBufferError}
use mbuscrate.Wmbus.Crc.{read_crc_be}
use mbuscrate.Wmbus.DecodeError.{
  FrameType, type_a, type_b, unknown, DecodeError, invalid_header, crc_mismatch, processing_error,
}
use mbuscrate.Wmbus.Frame.{WmBusFrame}
use mbuscrate.Wmbus.ModeC.{WmBusLinkFrame, ci, application_data, decode_mode_c}
use mbuscrate.Wmbus.Rfm69Packet.{packet_size, count}

pub record DecodeStats : Type 0 where
  pub frames_received : ℕ
  pub frames_decoded : ℕ
  pub crc_errors : ℕ
  pub header_errors : ℕ
  pub encryption_detected : ℕ
  pub type_a_frames : ℕ
  pub type_b_frames : ℕ

pub record FrameDecoder : Type 0 where
  pub buffer : IoBuffer
  pub current_frame_type : Option FrameType
  pub expected_size : Option ℕ
  pub stats : DecodeStats

abbrev pub new : FrameDecoder
new = record {
  buffer = IoBuffer.with_capacity 512;
  current_frame_type = none;
  expected_size = none;
  stats = record {
    frames_received = 0;
    frames_decoded = 0;
    crc_errors = 0;
    header_errors = 0;
    encryption_detected = 0;
    type_a_frames = 0;
    type_b_frames = 0;
  };
}

-- `map_err` on the write.
written :
    Result IoBufferError ℕ × IoBuffer → FrameDecoder → Result DecodeError (Unit {0}) × FrameDecoder
written (ok n, b) d = (ok tt, record d { buffer = b })
written (err e, b) d = (err processing_error, record d { buffer = b })

pub add_bytes : List ℕ → FrameDecoder → Result DecodeError (Unit {0}) × FrameDecoder
unfolding written
add_bytes bytes d = written (IoBuffer.write d.buffer bytes) d

-- The `match` on `packet_size`.
sized : ℤ → FrameDecoder → Result DecodeError (Option ℕ) × FrameDecoder
sized (pos n) d = (ok (some n), d)
sized (negsuc zero) d = (ok none, d)
sized (negsuc (suc n)) d = (err invalid_header, record d { buffer = IoBuffer.clear d.buffer })

pub determine_frame_size : FrameDecoder → Result DecodeError (Option ℕ) × FrameDecoder
unfolding sized
determine_frame_size d =
    if ltb (IoBuffer.len d.buffer) 2
    then (ok none, d)
    else sized (packet_size (IoBuffer.peek d.buffer 2)) d

count_type : FrameType → DecodeStats → DecodeStats
count_type type_a s = record s { type_a_frames = count s.type_a_frames }
count_type type_b s = record s { type_b_frames = count s.type_b_frames }
count_type unknown s = s

count_if : Bool → ℕ → ℕ
count_if test n = if test then count n else n

trailing_crc : List ℕ → ℕ
trailing_crc frame_data =
    if ltb (length frame_data) 2 then 0 else read_crc_be (drop (length frame_data - 2) frame_data)

unwrap_or : Option ℕ → ℕ → ℕ
unwrap_or none d = d
unwrap_or (some x) d = x

-- `matches!(control_info, 0x7A | 0x7B | 0x8A | 0x8B)`.
is_encrypted_ci : ℕ → Bool
is_encrypted_ci control_info =
    control_info == 0x7A || control_info == 0x7B || control_info == 0x8A || control_info == 0x8B

-- The frame that is handed out.
pub frame_of : WmBusLinkFrame → List ℕ → WmBusFrame
unfolding trailing_crc unwrap_or is_encrypted_ci
frame_of link frame_data = record {
  length_field = get_or frame_data 1 0;
  control_field = link.control_field;
  manufacturer_id = link.manufacturer_id;
  device_address = link.device_address;
  version = link.version;
  device_type = link.device_type;
  control_info = unwrap_or (ci link) 0;
  payload = application_data link;
  crc = trailing_crc frame_data;
  encrypted = is_encrypted_ci (unwrap_or (ci link) 0);
}

-- What follows `decode_mode_c(frame_data)?`.
process_link :
    Result DecodeError WmBusLinkFrame
    → List ℕ
    → FrameDecoder
    → Result DecodeError WmBusFrame × FrameDecoder
unfolding count_type count_if frame_of
process_link (err e) frame_data d = (err e, d)
process_link (ok link) frame_data d =
    let typed = record d {
      current_frame_type = some link.frame_type;
      stats = count_type link.frame_type d.stats;
    } in
    let s = typed.stats in
    if not link.crc_ok
    then (
      err (crc_mismatch (trailing_crc frame_data) 0),
      record typed { stats = record s { crc_errors = count s.crc_errors } },
    )
    else (
      ok (frame_of link frame_data),
      record typed {
        stats = record s {
          encryption_detected = count_if (frame_of link frame_data).encrypted s.encryption_detected;
        };
      },
    )

pub process_frame : FrameDecoder → List ℕ → Result DecodeError WmBusFrame × FrameDecoder
unfolding process_link
process_frame d frame_data = process_link (decode_mode_c frame_data) frame_data d

-- A round of the loop returns or is followed by another.
pub data Round : Type 0 where
  returned : Result DecodeError (Option WmBusFrame) → Round
  again : Round

is_invalid_header : DecodeError → Bool
is_invalid_header invalid_header = true
is_invalid_header other = false

-- The `match` on the result of `process_frame`.
processed : Result DecodeError WmBusFrame × FrameDecoder → Round × FrameDecoder
unfolding is_invalid_header
processed (ok frame, d) = (
  returned (ok (some frame)),
  record d { stats = record d.stats { frames_decoded = count d.stats.frames_decoded } },
)
processed (err e, d) =
    if is_invalid_header e
    then (
      again,
      record d {
        stats = record d.stats { header_errors = count d.stats.header_errors };
        buffer = IoBuffer.clear d.buffer;
      },
    )
    else (returned (err e), d)

-- The decoder when a frame has left the buffer `b`.
abbrev pub started : IoBuffer → FrameDecoder → FrameDecoder
started b d = record d {
  buffer = b;
  expected_size = none;
  stats = record d.stats { frames_received = count d.stats.frames_received };
}

consumed : Result IoBufferError (List ℕ) × IoBuffer → FrameDecoder → Round × FrameDecoder
unfolding processed process_frame
consumed (err e, b) d = (returned (err processing_error), record d { buffer = b })
consumed (ok frame_data, b) d = processed (process_frame (started b d) frame_data)

-- The round, once the size is known.
extract_frame : ℕ → FrameDecoder → Round × FrameDecoder
unfolding consumed
extract_frame size d =
    if ltb (IoBuffer.len d.buffer) size
    then (returned (ok none), d)
    else consumed (IoBuffer.consume_exact d.buffer size) d

after_size : Result DecodeError (Option ℕ) × FrameDecoder → Round × FrameDecoder
unfolding extract_frame
after_size (err e, d) = (returned (err e), d)
after_size (ok none, d) = (returned (ok none), d)
after_size (ok (some size), d) = extract_frame size (record d { expected_size = some size })

pub round : Option ℕ → FrameDecoder → Round × FrameDecoder
unfolding extract_frame after_size
round (some size) d = extract_frame size d
round none d = after_size (determine_frame_size d)

-- `loop`, with at most `rounds` of it: `none` is no result yet.
go_on :
    Round × FrameDecoder
    → Option (Result DecodeError (Option WmBusFrame)) × FrameDecoder
    → Option (Result DecodeError (Option WmBusFrame)) × FrameDecoder
go_on (returned r, d) later = (some r, d)
go_on (again, d) later = later

pub try_rounds : ℕ → FrameDecoder → Option (Result DecodeError (Option WmBusFrame)) × FrameDecoder
unfolding go_on round
try_rounds zero d = (none, d)
try_rounds (suc rounds) d =
    let this = round d.expected_size d in go_on this (try_rounds rounds this.1)

-- Two rounds are all that the loop ever takes.
pub try_decode_frame : FrameDecoder → Option (Result DecodeError (Option WmBusFrame)) × FrameDecoder
unfolding try_rounds
try_decode_frame d = try_rounds 2 d

pub reset : FrameDecoder → FrameDecoder
reset d = record d {
  buffer = IoBuffer.clear d.buffer;
  current_frame_type = none;
  expected_size = none;
}
