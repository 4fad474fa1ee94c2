-- ===== src/Wmbus/ModeC/Sender.antt =====
-- What a meter sends in mode C, by EN 13757-4: the specification that the decoder is held against.
use mbuscrate.Prelude.{
  ℕ, ◌+◌, ◌*◌, ◌/◌, ◌%◌, ◌^◌, ◌≤◌, ◌<◌, ◌≡◌, refl, ◌∙◌, List, [], ◌∷◌, ◌++◌, true, length, arith,
  IsU16, to_le_bytes,
}
use mbuscrate.Prelude.Bits.{bit_and_low}
use mbuscrate.Wmbus.Crc.{calculate_wmbus_crc}
use mbuscrate.Wmbus.Crc.Verify.{read_crc_be-crc}
use mbuscrate.Wmbus.DecodeError.{FrameType}
use mbuscrate.Wmbus.Frame.{add_wmbus_crc}
use mbuscrate.Wmbus.ModeC.{WmBusLinkFrame, bcd4, verify_block}

pub record Header : Type 0 where
  pub control_field : ℕ
  pub manufacturer_id : ℕ
  pub device_address : ℕ
  pub version : ℕ
  pub device_type : ℕ

-- The manufacturer code is a word, and the address has eight decimal digits.
abbrev pub IsHeader : Header → Type 0
IsHeader h = IsU16 h.manufacturer_id × (h.device_address < 10 ^ 8)

-- The frame that a decoder should make of a header and a payload.
abbrev pub received : FrameType → Header → List ℕ → WmBusLinkFrame
received frame_type h payload = record {
  frame_type = frame_type;
  control_field = h.control_field;
  manufacturer_id = h.manufacturer_id;
  device_address = h.device_address;
  version = h.version;
  device_type = h.device_type;
  payload = payload;
  crc_ok = true;
}

-- Two decimal digits in a byte, and the address as four such bytes, lowest first.
abbrev pub digits : ℕ → ℕ
digits n = n / 10 % 10 * 2 ^ 4 + n % 10

abbrev pub address_bytes : ℕ → List ℕ
address_bytes n =
    digits n ∷ digits (n / 100) ∷ digits (n / 100 / 100) ∷ digits (n / 100 / 100 / 100) ∷ []

-- The ten bytes of the link header, with the L-field.
abbrev pub header_bytes : ℕ → Header → List ℕ
header_bytes l h =
    (l ∷ h.control_field ∷ to_le_bytes 2 h.manufacturer_id)
    ++ address_bytes h.device_address
    ++ (h.version ∷ h.device_type ∷ [])

-- The data blocks of type A, all of 16 bytes but the last, which has 1 to 16.
abbrev pub IsBlocked : List (List ℕ) → Type 0
IsBlocked [] = Unit
IsBlocked (block ∷ []) = (1 ≤ length block) × (length block ≤ 16)
IsBlocked (block ∷ next ∷ blocks) = (length block ≡ 16) × IsBlocked (next ∷ blocks)

unfoldable pub concat : List (List ℕ) → List ℕ
concat [] = []
concat (block ∷ blocks) = block ++ concat blocks

unfoldable pub data_bytes : List (List ℕ) → List ℕ
data_bytes [] = []
data_bytes (block ∷ blocks) = add_wmbus_crc block ++ data_bytes blocks

-- A frame of type A: the L-field counts the nine other header bytes and the payload.
unfoldable pub type_a_frame : Header → List (List ℕ) → List ℕ
type_a_frame h blocks =
    0xCD ∷ add_wmbus_crc (header_bytes (9 + length (concat blocks)) h) ++ data_bytes blocks

-- A frame of type B with one block: the L-field counts what follows it, the CRC included.
unfoldable pub type_b_frame : Header → List ℕ → List ℕ
type_b_frame h payload = 0x3D ∷ add_wmbus_crc (header_bytes (11 + length payload) h ++ payload)

digit_pair :
    (v n : ℕ) (bs : List ℕ) → bcd4 bs ≡ v → v < 10 ^ 6 → bcd4 (digits n ∷ bs) ≡ v * 100 + n % 100
digit_pair v n bs e h = rw e (omega (arith, bit_and_low 4 (digits n)))

-- The address is read back from its bytes.
pub bcd4-address_bytes : (n : ℕ) → n < 10 ^ 8 → bcd4 (address_bytes n) ≡ n
bcd4-address_bytes n h =
    let d0 = n in
    let d1 = n / 100 in
    let d2 = n / 100 / 100 in
    let d3 = n / 100 / 100 / 100 in
    let v3 = digit_pair 0 d3 [] refl (omega arith) in
    let v2 = digit_pair (0 * 100 + d3 % 100) d2 (digits d3 ∷ []) v3 (omega arith) in
    let v1 =
      digit_pair ((0 * 100 + d3 % 100) * 100 + d2 % 100) d1 (digits d2 ∷ digits d3 ∷ []) v2
        (omega arith) in
    digit_pair (((0 * 100 + d3 % 100) * 100 + d2 % 100) * 100 + d1 % 100) d0
      (digits d1 ∷ digits d2 ∷ digits d3 ∷ []) v1 (omega arith)
    ∙ omega arith

-- A block followed by its CRC is valid.
pub verify_block-crc :
    (bytes : List ℕ)
    → verify_block bytes
        (calculate_wmbus_crc bytes / 2 ^ 8 ∷ calculate_wmbus_crc bytes % 2 ^ 8 ∷ [])
      ≡ true
unfolding verify_block
verify_block-crc bytes = rw (read_crc_be-crc bytes) (ground arith)
