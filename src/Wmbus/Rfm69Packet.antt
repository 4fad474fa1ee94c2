-- ===== src/Wmbus/Rfm69Packet.antt =====
-- src/wmbus/radio/rfm69_packet.rs: bytes from the FIFO of the RFM69, gathered into packets.
-- `rev8` there has the body of src/util/bitrev.rs. The statistics are `u64` and wrap; a panic is `none`.
pub mod Size
pub mod Buffer
mod Tests
use mbuscrate.Prelude.{
  ℕ, zero, suc, ◌+◌, ◌-◌, ◌*◌, ◌/◌, ◌%◌, ◌^◌, ◌≤◌, List, [], ◌∷◌, ◌++◌, Bool, true, false, not,
  ◌&&◌, ◌||◌, ◌==◌, ltb, leb, if◌then◌else◌, length, get_or, get_elem?, take, drop, slice, bit_and,
  bit_xor, Result, ok, err, from_le_bytes, Option, none, some, ℤ, pos, negsuc,
}
use mbuscrate.Util.BitRev.{rev8}
use mbuscrate.Wmbus.Crc.{calculate_wmbus_crc, read_crc_be, crc_bits}

pub record PacketStats : Type 0 where
  pub packets_received : ℕ
  pub packets_valid : ℕ
  pub packets_crc_error : ℕ
  pub packets_invalid_header : ℕ
  pub packets_encrypted : ℕ
  pub fifo_overruns : ℕ

-- `queue` is the field `data`.
pub record PacketBuffer : Type 0 where
  pub queue : List ℕ
  pub expected_size : Option ℕ
  pub stats : PacketStats

pub data PacketEvent : Type 0 where
  valid crc_error_event invalid_header_event encrypted fifo_overrun : PacketEvent

pub data PacketError : Type 0 where
  invalid_header no_size_set crc_error : PacketError
  incomplete_packet : ℕ → ℕ → PacketError
  too_short : ℕ → PacketError

unfoldable pub new : PacketBuffer
new = record {
  queue = [];
  expected_size = none;
  stats = record {
    packets_received = 0;
    packets_valid = 0;
    packets_crc_error = 0;
    packets_invalid_header = 0;
    packets_encrypted = 0;
    fifo_overruns = 0;
  };
}

pub clear : PacketBuffer → PacketBuffer
clear b = record b { queue = []; expected_size = none }

pub push_byte : ℕ → PacketBuffer → PacketBuffer
push_byte byte b = record b { queue = b.queue ++ (rev8 byte ∷ []) }

-- `+= 1` on a `u64`.
abbrev pub count : ℕ → ℕ
count n = (n + 1) % 2 ^ 64

count_event : PacketEvent → PacketStats → PacketStats
count_event valid s = record s { packets_valid = count s.packets_valid }
count_event crc_error_event s = record s { packets_crc_error = count s.packets_crc_error }
count_event invalid_header_event s = record s {
  packets_invalid_header = count s.packets_invalid_header;
}
count_event encrypted s = record s { packets_encrypted = count s.packets_encrypted }
count_event fifo_overrun s = record s { fifo_overruns = count s.fifo_overruns }

pub update_stats : PacketEvent → PacketBuffer → PacketBuffer
unfolding count_event
update_stats event b = record b { stats = count_event event b.stats }

pub sync_norm : ℕ → ℕ
sync_norm sync = if sync == 0xB3 then 0xCD else if sync == 0xBC then 0x3D else sync

-- `(l - 10).max(0)` is the subtraction of ℕ; no sum reaches 2 ^ 31.
pub wmbus_packet_len : ℕ → Bool → ℕ
wmbus_packet_len l type_b =
    if type_b then l + 2 else (let num_crcs = 1 + (l - 10 + 15) / 16 in 2 + l + num_crcs * 2)

abbrev pub is_sync : ℕ → Bool
is_sync sync = sync == 0xCD || sync == 0x3D

-- The `i32` that the source returns: -1 asks for more data, -2 is no header.
pub packet_size : List ℕ → ℤ
unfolding sync_norm wmbus_packet_len
packet_size [] = negsuc 0
packet_size (b0 ∷ []) = negsuc 0
packet_size (b0 ∷ b1 ∷ bytes) =
    if is_sync (sync_norm b0)
    then pos (wmbus_packet_len b1 (sync_norm b0 == 0x3D))
    else if is_sync (sync_norm b1)
    then pos (wmbus_packet_len b0 (sync_norm b1 == 0x3D))
    else negsuc 1

-- `match want`, whose last two arms ask for more data.
pub with_size : ℤ → PacketBuffer → Option ℕ × PacketBuffer
unfolding clear update_stats
with_size (pos zero) b = (none, b)
with_size (pos (suc n)) b = (some (suc n), record b { expected_size = some (suc n) })
with_size (negsuc zero) b = (none, b)
with_size (negsuc (suc zero)) b = (none, update_stats invalid_header_event (clear b))
with_size (negsuc (suc (suc n))) b = (none, b)

size_known : Option ℕ → PacketBuffer → Option ℕ × PacketBuffer
unfolding with_size
size_known (some size) b = (some size, b)
size_known none b = if ltb (length b.queue) 2 then (none, b) else with_size (packet_size b.queue) b

pub determine_packet_size : PacketBuffer → Option ℕ × PacketBuffer
unfolding size_known
determine_packet_size b = size_known b.expected_size b

complete : Option ℕ → ℕ → Bool
complete none size = false
complete (some expected) size = leb expected size

pub is_complete : PacketBuffer → Bool
unfolding complete
is_complete b = complete b.expected_size (length b.queue)

extract : Option ℕ → PacketBuffer → Result PacketError (List ℕ) × PacketBuffer
extract none b = (err no_size_set, b)
extract (some expected) b =
    if ltb (length b.queue) expected
    then (err (incomplete_packet expected (length b.queue)), b)
    else (
      ok (take expected b.queue),
      record b {
        queue = drop expected b.queue;
        expected_size = none;
        stats = record b.stats { packets_received = count b.stats.packets_received };
      },
    )

pub extract_packet : PacketBuffer → Result PacketError (List ℕ) × PacketBuffer
unfolding extract
extract_packet b = extract b.expected_size b

continues : Option ℕ → ℕ → Bool
continues none size = true
continues (some expected) size = ltb size expected

pub should_continue_fifo_read : PacketBuffer → Bool
unfolding continues
should_continue_fifo_read b = continues b.expected_size (length b.queue)

pub verify_wmbus_crc : List ℕ → Bool
verify_wmbus_crc frame =
    if ltb (length frame) 3
    then false
    else (let data_len = length frame - 2 in
        calculate_wmbus_crc (take data_len frame) == read_crc_be (drop data_len frame))

-- Both parts of the pair are the first byte.
pub extract_c_field : List ℕ → Option (ℕ × ℕ)
extract_c_field [] = none
extract_c_field (c_raw ∷ payload) = some (c_raw, c_raw)

pub is_valid_c_field : ℕ → Bool
is_valid_c_field c_field = c_field == 0x44 || c_field == 0x47 || c_field == 0x40

-- One byte of `wmbus_crc`, and its loop.
abbrev pub wmbus_crc_loop : ℕ → List ℕ → ℕ
wmbus_crc_loop remainder [] = remainder
wmbus_crc_loop remainder (byte ∷ bytes) =
    wmbus_crc_loop (crc_bits 8 (bit_xor remainder (byte * 2 ^ 8 % 2 ^ 16))) bytes

pub wmbus_crc : List ℕ → ℕ
wmbus_crc bytes = 0xFFFF - wmbus_crc_loop 0 bytes

pub validate_type_a_crc : List ℕ → ℕ → Result PacketError Bool
unfolding wmbus_crc
validate_type_a_crc payload l =
    if ltb l 2
    then err (too_short l)
    else if ltb (length payload) l
    then err (incomplete_packet l (length payload))
    else ok (from_le_bytes (slice payload (l - 2) l) == wmbus_crc (take (l - 2) payload))

pub validate_type_b_crc : List ℕ → ℕ → Result PacketError Bool
unfolding wmbus_crc
validate_type_b_crc payload l =
    if ltb (length payload) (l + 2)
    then err (incomplete_packet (l + 2) (length payload))
    else ok (from_le_bytes (slice payload l (l + 2)) == wmbus_crc (take l payload))

-- `ci == 0x7A && (acc & 0x80) != 0`, with both bytes read before the test.
encrypted_of : Option ℕ → Option ℕ → Option Bool
encrypted_of (some ci) (some acc) = some (ci == 0x7A && not (bit_and acc 0x80 == 0))
encrypted_of none acc = none
encrypted_of (some ci) none = none

pub is_encrypted_frame : List ℕ → Option Bool
unfolding encrypted_of
is_encrypted_frame payload =
    if ltb (length payload) (1 + 2 + 4 + 1 + 1 + 1 + 1)
    then some false
    else encrypted_of (get_elem? payload 10) (get_elem? payload 11)

-- `LogThrottle`, with the clock in milliseconds as an argument; `t0` is its last window's start.
pub record LogThrottle : Type 0 where
  pub window_ms : ℕ
  pub cap : ℕ
  pub log_count : ℕ
  pub t0 : ℕ

pub allow : ℕ → LogThrottle → Bool × LogThrottle
allow now t =
    let fresh = if ltb t.window_ms (now - t.t0) then record t { t0 = now; log_count = 0 } else t in
    let counted = (fresh.log_count + 1) % 2 ^ 32 in
    (leb counted t.cap, record fresh { log_count = counted })
