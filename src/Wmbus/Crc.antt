-- ===== src/Wmbus/Crc.antt =====
-- src/wmbus/crc.rs: the CRC-16 of EN 13757 by a table of 256 entries, and its check on a frame.
-- A `u16` is a number below 2 ^ 16: `<<` is a product modulo 2 ^ 16, `>>` a quotient, `!` the
-- distance from 0xFFFF.
pub mod Linear
pub mod Table
pub mod Serial
pub mod Detect
pub mod Verify
mod Tests
use mbuscrate.Prelude.{
  ℕ, zero, suc, ◌+◌, ◌-◌, ◌*◌, ◌/◌, ◌%◌, ◌^◌, bit_and, bit_or, bit_xor, List, [], ◌∷◌, Bool, false,
  ltb, ◌==◌, if◌then◌else◌, length, get_or, set, take, drop, replicate,
}

abbrev pub wmbus_crc_poly : ℕ
wmbus_crc_poly = 0x3D65

-- One round of the inner loop of `build_table`.
unfoldable pub crc_bit : ℕ → ℕ
crc_bit crc =
    if bit_and crc 0x8000 == 0 then crc * 2 % 2 ^ 16 else bit_xor (crc * 2 % 2 ^ 16) wmbus_crc_poly

-- `n` rounds of it.
unfoldable pub crc_bits : ℕ → ℕ → ℕ
crc_bits zero crc = crc
crc_bits (suc n) crc = crc_bits n (crc_bit crc)

-- The outer loop: `n` entries are still to be written, from index `i` on.
unfoldable pub build_table_from : ℕ → ℕ → List ℕ → List ℕ
build_table_from zero i table = table
build_table_from (suc n) i table =
    build_table_from n (i + 1) (set table i (crc_bits 8 (i * 2 ^ 8 % 2 ^ 16)))

unfoldable pub build_table : List ℕ
build_table = build_table_from 256 0 (replicate 256 0)

-- The loop body of `calculate_wmbus_crc`. `Table.get_or-build_table` shows every index in range.
unfoldable pub crc_step : ℕ → ℕ → ℕ
crc_step crc b =
    let idx = bit_and (bit_xor (crc / 2 ^ 8) b) 0xFF in
    bit_xor (crc * 2 ^ 8 % 2 ^ 16) (get_or build_table idx 0)

unfoldable pub crc_loop : ℕ → List ℕ → ℕ
crc_loop crc [] = crc
crc_loop crc (b ∷ bs) = crc_loop (crc_step crc b) bs

unfoldable pub calculate_wmbus_crc : List ℕ → ℕ
calculate_wmbus_crc bytes = 0xFFFF - crc_loop 0 bytes

-- Callers hand over two bytes at least; Rust panics on fewer.
unfoldable pub read_crc_be : List ℕ → ℕ
read_crc_be bytes = bit_or (get_or bytes 0 0 * 2 ^ 8 % 2 ^ 16) (get_or bytes 1 0)

unfoldable pub verify_crc_be : List ℕ → Bool
verify_crc_be data_with_crc =
    if ltb (length data_with_crc) 2
    then false
    else (let split = length data_with_crc - 2 in
        calculate_wmbus_crc (take split data_with_crc) == read_crc_be (drop split data_with_crc))
