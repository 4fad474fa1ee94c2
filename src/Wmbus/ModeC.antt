-- ===== src/Wmbus/ModeC.antt =====
-- src/wmbus/mode_c.rs: the link layer of wM-Bus mode C, with the CRC of each block.
-- A slice is read with `get_or` where the checks before it show that the index is in range. The
-- loop over the data blocks takes what is left of the bytes in place of `raw` and `pos`, which
-- stay in range; a round takes one byte of the payload at least.
pub mod Sender
pub mod TypeA
pub mod TypeB
mod Tests
use mbuscrate.Prelude.{
  ℕ, zero, suc, ◌+◌, ◌-◌, ◌*◌, ◌/◌, ◌%◌, ◌^◌, List, [], ◌∷◌, ◌++◌, Bool, true, false, ◌&&◌, ◌==◌,
  ltb, leb, if◌then◌else◌, length, get_or, take, drop, slice, min, bit_and, Result, ok, err,
  from_le_bytes, Option, none, some,
}
use mbuscrate.Wmbus.Crc.{calculate_wmbus_crc, read_crc_be}
use mbuscrate.Wmbus.DecodeError.{
  FrameType, type_a, type_b, DecodeError, buffer_too_short, invalid_header, invalid_length,
}

abbrev pub type_a_sync : ℕ
type_a_sync = 0xCD

abbrev pub type_b_sync : ℕ
type_b_sync = 0x3D

abbrev pub header_len : ℕ
header_len = 10

abbrev pub type_a_block_len : ℕ
type_a_block_len = 16

abbrev pub crc_len : ℕ
crc_len = 2

pub record WmBusLinkFrame : Type 0 where
  pub frame_type : FrameType
  pub control_field : ℕ
  pub manufacturer_id : ℕ
  pub device_address : ℕ
  pub version : ℕ
  pub device_type : ℕ
  pub payload : List ℕ
  pub crc_ok : Bool

first : List ℕ → Option ℕ
first [] = none
first (b ∷ bs) = some b

unfoldable pub ci : WmBusLinkFrame → Option ℕ
unfolding first
ci f = first f.payload

unfoldable pub application_data : WmBusLinkFrame → List ℕ
application_data f = drop 1 f.payload

pub verify_block : List ℕ → List ℕ → Bool
verify_block bytes crc_bytes =
    leb crc_len (length crc_bytes) && calculate_wmbus_crc bytes == read_crc_be crc_bytes

-- The loop runs over the bytes from the last to the first.
abbrev pub bcd4 : List ℕ → ℕ
bcd4 [] = 0
bcd4 (b ∷ bs) = (bcd4 bs * 100 + b / 2 ^ 4 * 10 + bit_and b 0x0F) % 2 ^ 32

-- `while remaining > 0`: the payload that the rounds collect, and whether all of them are valid.
-- `rest` is `raw[pos..]`, and at most `rounds` are to come.
pub data_blocks : ℕ → ℕ → List ℕ → List ℕ × Bool
data_blocks zero remaining rest = ([], true)
data_blocks (suc rounds) remaining rest =
    let blklen = min remaining type_a_block_len in
    let later = data_blocks rounds (remaining - blklen) (drop (blklen + crc_len) rest) in
    if ltb 0 remaining
    then (if ltb (length rest) (blklen + crc_len) then ([], false) else (
      take blklen rest ++ later.0,
      verify_block (take blklen rest) (slice rest blklen (blklen + crc_len)) && later.1,
    ))
    else ([], true)

-- The link header, which both types have at `raw[1..11]`, around a payload.
abbrev pub link_frame : FrameType → List ℕ → List ℕ × Bool → WmBusLinkFrame
link_frame frame_type raw body = record {
  frame_type = frame_type;
  control_field = get_or raw 2 0;
  manufacturer_id = from_le_bytes (slice raw 3 5);
  device_address = bcd4 (slice raw 5 9);
  version = get_or raw 9 0;
  device_type = get_or raw 10 0;
  payload = body.0;
  crc_ok = body.1;
}

-- The branch `type_a`; `remaining` is negative in the source where it is zero here.
pub decode_type_a : List ℕ → Result DecodeError WmBusLinkFrame
unfolding data_blocks
decode_type_a raw =
    let l = get_or raw 1 0 in
    let header_ok =
      verify_block (slice raw 1 (1 + header_len))
        (slice raw (1 + header_len) (1 + header_len + crc_len)) in
    let (payload, blocks_ok) =
      data_blocks (l - (header_len - 1)) (l - (header_len - 1))
        (drop (1 + header_len + crc_len) raw) in
    ok (link_frame type_a raw (payload, header_ok && blocks_ok))

-- The optional second block of type B, from `after` to the end: its bytes, and whether it is valid.
pub second_block : ℕ → List ℕ → List ℕ × Bool
second_block after raw =
    if leb (after + crc_len) (length raw)
    then (let b2 = slice raw after (length raw - crc_len) in
        (b2, verify_block b2 (drop (length raw - crc_len) raw)))
    else ([], true)

pub decode_type_b : List ℕ → Result DecodeError WmBusLinkFrame
unfolding second_block
decode_type_b raw =
    let l = get_or raw 1 0 in
    let b0 = l - 1 in
    let (b2, b2_ok) = second_block (1 + b0 + crc_len) raw in
    let b0_ok = verify_block (slice raw 1 (1 + b0)) (slice raw (1 + b0) (1 + b0 + crc_len)) in
    if ltb l 1
    then err (invalid_length l)
    else if ltb (length raw) (1 + b0 + crc_len)
    then err (buffer_too_short (1 + b0 + crc_len) (length raw))
    else ok (link_frame type_b raw (slice raw (1 + header_len) (1 + b0) ++ b2, b0_ok && b2_ok))

pub with_header : Bool → List ℕ → Result DecodeError WmBusLinkFrame
unfolding decode_type_a decode_type_b
with_header is_type_a raw =
    if ltb (length raw) (1 + header_len + crc_len)
    then err (buffer_too_short (1 + header_len + crc_len) (length raw))
    else if is_type_a
    then decode_type_a raw
    else decode_type_b raw

pub decode_mode_c : List ℕ → Result DecodeError WmBusLinkFrame
unfolding with_header
decode_mode_c raw =
    if ltb (length raw) 2
    then err (buffer_too_short 2 (length raw))
    else if get_or raw 0 0 == type_a_sync
    then with_header true raw
    else if get_or raw 0 0 == type_b_sync
    then with_header false raw
    else err invalid_header
