-- ===== src/Wmbus/Frame.antt =====
-- src/wmbus/frame.rs: frames with one CRC at their end, built and parsed.
-- A slice is read with `get_or` where the checks before it show that the index is in range. The
-- counts of errors and successes per device, a global statistic, are left out.
pub mod Build
mod Tests
use mbuscrate.Prelude.{
  ℕ, zero, suc, ◌+◌, ◌-◌, ◌*◌, ◌/◌, ◌%◌, ◌^◌, List, [], ◌∷◌, ◌++◌, Bool, true, false, not, ◌&&◌,
  ◌||◌, ◌==◌, ltb, leb, if◌then◌else◌, length, get_or, take, drop, slice, bit_and, Result, ok, err,
  to_le_bytes, from_le_bytes, Option, none, some,
}
use mbuscrate.Wmbus.Crc.{calculate_wmbus_crc, read_crc_be}

pub record WmBusFrame : Type 0 where
  pub length_field : ℕ
  pub control_field : ℕ
  pub manufacturer_id : ℕ
  pub device_address : ℕ
  pub version : ℕ
  pub device_type : ℕ
  pub control_info : ℕ
  pub payload : List ℕ
  pub crc : ℕ
  pub encrypted : Bool

pub data ParseError : Type 0 where
  invalid_length invalid_crc buffer_too_short : ParseError

pub is_encrypted_frame : ℕ → ℕ → Bool
is_encrypted_frame control_field control_info =
    not (bit_and control_field 0x80 == 0) || (leb 0x7A control_info && leb control_info 0x8B)

pub verify_wmbus_crc : List ℕ → Bool
verify_wmbus_crc frame_data =
    if ltb (length frame_data) 3
    then false
    else read_crc_be (drop (length frame_data - 2) frame_data)
      == calculate_wmbus_crc (take (length frame_data - 2) frame_data)

-- `to_be_bytes` of the CRC.
unfoldable pub add_wmbus_crc : List ℕ → List ℕ
add_wmbus_crc frame_data =
    frame_data
    ++ (calculate_wmbus_crc frame_data / 2 ^ 8 ∷ calculate_wmbus_crc frame_data % 2 ^ 8 ∷ [])

abbrev pub member : ℕ → List ℕ → Bool
member x [] = false
member x (y ∷ ys) = x == y || member x ys

abbrev pub between : ℕ → ℕ → ℕ → Bool
between x lo hi = leb lo x && leb x hi

-- The alternatives of `matches!`; runs of neighbouring codes are ranges.
pub is_application_ci : ℕ → Bool
is_application_ci ci =
    member ci
      (0x51 ∷ 0x52 ∷ 0x54 ∷ 0x55 ∷ 0x5A ∷ 0x5B ∷ 0x5F ∷ 0x60 ∷ 0x61 ∷ 0x64 ∷ 0x65 ∷ 0x69 ∷ [])
    || between ci 0x6A 0x80
    || between ci 0x8A 0x97
    || between ci 0xA0 0xB7

pub looks_like_full_frame : List ℕ → Bool
unfolding is_application_ci
looks_like_full_frame b =
    leb 13 (length b) && (length b == get_or b 0 0 + 3) && is_application_ci (get_or b 10 0)

-- The bytes from `start` to the CRC; the slice is empty where the source's `if` gives `vec![]`.
abbrev pub payload_from : ℕ → List ℕ → List ℕ
payload_from start raw_bytes = slice raw_bytes start (length raw_bytes - 2)

abbrev pub trailing_crc : List ℕ → ℕ
trailing_crc raw_bytes = read_crc_be (drop (length raw_bytes - 2) raw_bytes)

pub parse_compact_frame : List ℕ → Result ParseError WmBusFrame
parse_compact_frame raw_bytes =
    if ltb (length raw_bytes) 7
    then err buffer_too_short
    else if not (get_or raw_bytes 2 0 == 0x79)
    then err invalid_length
    else if not (verify_wmbus_crc raw_bytes)
    then err invalid_crc
    else ok (record {
      length_field = get_or raw_bytes 0 0;
      control_field = get_or raw_bytes 1 0;
      manufacturer_id = from_le_bytes (slice raw_bytes 3 5);
      device_address = 0;
      version = 0;
      device_type = 0;
      control_info = get_or raw_bytes 2 0;
      payload = payload_from 5 raw_bytes;
      crc = trailing_crc raw_bytes;
      encrypted = false;
    })

-- The fields at their places.
abbrev pub full_frame : List ℕ → WmBusFrame
full_frame raw_bytes = record {
  length_field = get_or raw_bytes 0 0;
  control_field = get_or raw_bytes 1 0;
  manufacturer_id = from_le_bytes (slice raw_bytes 2 4);
  device_address = from_le_bytes (slice raw_bytes 4 8);
  version = get_or raw_bytes 8 0;
  device_type = get_or raw_bytes 9 0;
  control_info = get_or raw_bytes 10 0;
  payload = payload_from 11 raw_bytes;
  crc = trailing_crc raw_bytes;
  encrypted = is_encrypted_frame (get_or raw_bytes 1 0) (get_or raw_bytes 10 0);
}

-- What `parse_wmbus_frame` does with a frame that it does not take for a compact one.
pub parse_full_frame : List ℕ → Result ParseError WmBusFrame
parse_full_frame raw_bytes =
    if ltb (length raw_bytes) 13
    then err buffer_too_short
    else if not (length raw_bytes == get_or raw_bytes 0 0 + 1 + 2)
    then err invalid_length
    else if not (verify_wmbus_crc raw_bytes)
    then err invalid_crc
    else ok (full_frame raw_bytes)

pub parse_wmbus_frame : List ℕ → Result ParseError WmBusFrame
unfolding parse_full_frame parse_compact_frame looks_like_full_frame
parse_wmbus_frame raw_bytes =
    if leb 7 (length raw_bytes)
      && get_or raw_bytes 2 0 == 0x79
      && not (looks_like_full_frame raw_bytes)
    then parse_compact_frame raw_bytes
    else parse_full_frame raw_bytes

-- The frame of `build` before its CRC.
abbrev pub unsigned : ℕ → ℕ → ℕ → ℕ → ℕ → ℕ → List ℕ → List ℕ
unsigned control_field manufacturer_id device_address version device_type control_info payload =
    ((1 + 2 + 4 + 1 + 1 + 1 + length payload) % 2 ^ 8
      ∷ control_field
      ∷ to_le_bytes 2 manufacturer_id)
    ++ to_le_bytes 4 device_address
    ++ (version ∷ device_type ∷ control_info ∷ payload)

pub build : ℕ → ℕ → ℕ → ℕ → ℕ → ℕ → List ℕ → List ℕ
build control_field manufacturer_id device_address version device_type control_info payload =
    add_wmbus_crc (
      unsigned control_field manufacturer_id device_address version device_type control_info
        payload)

pub to_bytes : WmBusFrame → List ℕ
unfolding build
to_bytes f =
    build f.control_field f.manufacturer_id f.device_address f.version f.device_type f.control_info
      f.payload

pub verify_crc : WmBusFrame → Bool
unfolding to_bytes verify_wmbus_crc
verify_crc f = verify_wmbus_crc (to_bytes f)
