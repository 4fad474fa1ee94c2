-- ===== src/Util/BitRev.antt =====
-- src/util/bitrev.rs: bit reversal of the words that pass between wM-Bus framing and the radio.
-- `<<` on a `u8` drops what leaves the byte (`% 2 ^ 8`), and so on for the wider words.
pub mod Laws
mod Tests
use mbuscrate.Prelude.{
  ℕ, ◌+◌, ◌*◌, ◌/◌, ◌%◌, ◌^◌, bit_and, bit_or, List, [], ◌∷◌, map, Bool, true, false, ◌||◌, ◌==◌,
  if◌then◌else◌,
}

swap_nibbles : ℕ → ℕ
swap_nibbles byte = bit_or (bit_and byte 0xF0 / 2 ^ 4) (bit_and byte 0x0F * 2 ^ 4 % 2 ^ 8)

swap_pairs : ℕ → ℕ
swap_pairs byte = bit_or (bit_and byte 0xCC / 2 ^ 2) (bit_and byte 0x33 * 2 ^ 2 % 2 ^ 8)

swap_bits : ℕ → ℕ
swap_bits byte = bit_or (bit_and byte 0xAA / 2) (bit_and byte 0x55 * 2 % 2 ^ 8)

unfoldable pub rev8 : ℕ → ℕ
unfolding swap_nibbles swap_pairs swap_bits
rev8 byte = swap_bits (swap_pairs (swap_nibbles byte))

pub rev16 : ℕ → ℕ
rev16 value =
    let low = rev8 (bit_and value 0xFF % 2 ^ 8) in
    let high = rev8 (value / 2 ^ 8 % 2 ^ 8) in bit_or (low * 2 ^ 8 % 2 ^ 16) high

pub rev32 : ℕ → ℕ
rev32 value =
    let b0 = rev8 (bit_and value 0xFF % 2 ^ 8) in
    let b1 = rev8 (bit_and (value / 2 ^ 8) 0xFF % 2 ^ 8) in
    let b2 = rev8 (bit_and (value / 2 ^ 16) 0xFF % 2 ^ 8) in
    let b3 = rev8 (bit_and (value / 2 ^ 24) 0xFF % 2 ^ 8) in
    bit_or (bit_or (bit_or (b0 * 2 ^ 24 % 2 ^ 32) (b1 * 2 ^ 16 % 2 ^ 32)) (b2 * 2 ^ 8 % 2 ^ 32)) b3

-- The loop over `iter_mut` leaves this list in the slice.
pub rev8_slice : List ℕ → List ℕ
rev8_slice [] = []
rev8_slice (byte ∷ rest) = rev8 byte ∷ rev8_slice rest

pub rev8_vec : List ℕ → List ℕ
rev8_vec bytes = map rev8 bytes

pub data BitContext : Type 0 where
  always never wmbus_sync : BitContext

pub needs_reversal : ℕ → BitContext → Bool
needs_reversal byte wmbus_sync = byte == 0xB3 || byte == 0xBC
needs_reversal byte always = true
needs_reversal byte never = false

abbrev pub wmbus_sync_a_raw : ℕ
wmbus_sync_a_raw = 0xB3

abbrev pub wmbus_sync_b_raw : ℕ
wmbus_sync_b_raw = 0xBC

abbrev pub wmbus_sync_a_norm : ℕ
wmbus_sync_a_norm = 0xCD

abbrev pub wmbus_sync_b_norm : ℕ
wmbus_sync_b_norm = 0x3D

pub is_raw_sync : ℕ → Bool
is_raw_sync byte = byte == wmbus_sync_a_raw || byte == wmbus_sync_b_raw

pub is_normalized_sync : ℕ → Bool
is_normalized_sync byte = byte == wmbus_sync_a_norm || byte == wmbus_sync_b_norm

pub normalize_sync : ℕ → ℕ
normalize_sync byte =
    if byte == wmbus_sync_a_raw
    then wmbus_sync_a_norm
    else if byte == wmbus_sync_b_raw
    then wmbus_sync_b_norm
    else byte
