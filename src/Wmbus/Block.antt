-- ===== src/Wmbus/Block.antt =====
-- src/wmbus/block.rs: a payload in blocks of 14 bytes of data and 2 of CRC.
-- A loop over the payload has a number of rounds to go, one for each byte, since a round takes at
-- least one byte. The log is left out; `encrypted` decides nothing else in `verify_blocks`.
pub mod Join
pub mod Split
mod Tests
use mbuscrate.Prelude.{
  ℕ, zero, suc, ◌+◌, ◌/◌, List, [], ◌∷◌, ◌++◌, Bool, true, false, not, ◌&&◌, ◌||◌, Option, none,
  some, ◌==◌, ltb, if◌then◌else◌, length, take, drop, Result, ok, err,
}
use mbuscrate.Wmbus.Crc.{calculate_wmbus_crc, read_crc_be}
use mbuscrate.Mbus.Error.{MBusError, other}

abbrev pub block_size : ℕ
block_size = 16

abbrev pub block_data_size : ℕ
block_data_size = 14

-- `BlockInfo`; `bytes` is its field `data`.
pub record BlockInfo : Type 0 where
  pub index : ℕ
  pub raw_data : List ℕ
  pub bytes : List ℕ
  pub crc_received : ℕ
  pub crc_calculated : ℕ
  pub crc_valid : Bool

unfoldable pub calculate_block_crc : List ℕ → ℕ
calculate_block_crc bytes = calculate_wmbus_crc bytes

-- The last block, if it has fewer than 16 bytes.
abbrev pub partial_block : ℕ → List ℕ → BlockInfo
partial_block index block_data = record {
  index = index;
  raw_data = block_data;
  bytes = block_data;
  crc_received = 0;
  crc_calculated = 0;
  crc_valid = false;
}

-- What one round pushes for a whole block; `tolerate` says whether a failed check is let pass, from
-- the index, the calculated and the received CRC.
pub whole_block : (ℕ → ℕ → ℕ → Bool) → ℕ → List ℕ → BlockInfo
whole_block tolerate index block_data =
    let bytes = take block_data_size block_data in
    let crc_received = read_crc_be (drop block_data_size block_data) in
    let crc_calculated = calculate_block_crc bytes in
    record {
      index = index;
      raw_data = block_data;
      bytes = bytes;
      crc_received = crc_received;
      crc_calculated = crc_calculated;
      crc_valid = crc_received == crc_calculated || tolerate index crc_calculated crc_received;
    }

-- `while offset < payload.len()`: `index` blocks have been pushed, `rest` is what is left, and at
-- most `rounds` are still to come.
pub blocks_from : (ℕ → ℕ → ℕ → Bool) → ℕ → ℕ → List ℕ → List BlockInfo
blocks_from tolerate zero index rest = []
blocks_from tolerate (suc rounds) index [] = []
blocks_from tolerate (suc rounds) index (b ∷ bs) =
    let later = blocks_from tolerate rounds (index + 1) (drop block_size (b ∷ bs)) in
    if ltb (length (b ∷ bs)) block_size
    then partial_block index (b ∷ bs) ∷ []
    else whole_block tolerate index (take block_size (b ∷ bs)) ∷ later

abbrev pub never : ℕ → ℕ → ℕ → Bool
never index crc_calculated crc_received = false

pub verify_blocks : List ℕ → Bool → Result MBusError (List BlockInfo)
verify_blocks payload encrypted = ok (blocks_from never (length payload) 0 payload)

-- `vendor` is there where both `manufacturer_id` and `registry` are; it answers whether
-- `dispatch_crc_tolerance` of that vendor's extension returns `Ok(Some(true))`. The count of errors
-- per device, a global statistic, is left out.
tolerance : Bool → Option (ℕ → ℕ → ℕ → Bool) → ℕ → ℕ → ℕ → Bool
tolerance true vendor = never
tolerance false none = never
tolerance false (some f) = f

pub verify_blocks_with_vendor :
    List ℕ → Bool → Option (ℕ → ℕ → ℕ → Bool) → Result MBusError (List BlockInfo)
unfolding tolerance
verify_blocks_with_vendor payload encrypted vendor =
    ok (blocks_from (tolerance encrypted vendor) (length payload) 0 payload)

pub extract_block_data : List BlockInfo → List ℕ
extract_block_data [] = []
extract_block_data (block ∷ blocks) = block.bytes ++ extract_block_data blocks

pub process_type_a_blocks : List ℕ → Bool → Result MBusError (List ℕ)
process_type_a_blocks payload encrypted = extracted (verify_blocks payload encrypted)
  where
    extracted : Result MBusError (List BlockInfo) → Result MBusError (List ℕ)
    extracted (ok blocks) = ok (extract_block_data blocks)
    extracted (err e) = err e

-- The manufacturer "QDS", as ASCII codes: the one with a known fault.
abbrev pub is_qds : List ℕ → Bool
is_qds (a ∷ b ∷ c ∷ []) = a == 0x51 && b == 0x44 && c == 0x53
is_qds name = false

pub tolerated : ℕ → Option (List ℕ) → Bool
tolerated block_index none = false
tolerated block_index (some mfr) = is_qds mfr && block_index == 2

pub validate_block_with_tolerance : ℕ → List ℕ → Option (List ℕ) → Bool → Result MBusError Bool
unfolding tolerated
validate_block_with_tolerance block_index block_data manufacturer_id allow_tolerance =
    if length block_data == block_size
    then ok (
        read_crc_be (drop block_data_size block_data)
          == calculate_block_crc (take block_data_size block_data)
        || (allow_tolerance && tolerated block_index manufacturer_id))
    else err other
