-- ===== src/Payload/Encoding.antt =====
-- src/payload/data_encoding.rs: binary-coded decimals, manufacturer codes and times.
-- A character is its code point; every `char` that the sources push here is in range.
pub mod Bcd
pub mod Integer
pub mod Manufacturer
pub mod Time
mod Tests
use mbuscrate.Prelude.{
  ℕ, zero, suc, ◌+◌, ◌-◌, ◌*◌, ◌/◌, ◌%◌, ◌^◌, bit_and, bit_or, List, [], ◌∷◌, ◌++◌, Bool, true,
  false, ◌&&◌, ◌||◌, ltb, leb, ◌==◌, ℤ, pos, negsuc, if◌then◌else◌, Result, ok, err, ◌>>=◌,
}
use mbuscrate.Nom.{Nom, IResult, NomErr, error, verify, tag}
use mbuscrate.Mbus.Error.{MBusError, invalid_manufacturer, invalid_manufacturer_id}

-- The test that no byte fails.
abbrev pub all_digits : List ℕ → Bool
all_digits [] = true
all_digits (b ∷ bs) =
    if ltb 9 (bit_and b 0xF) || ltb 9 (bit_and (b / 2 ^ 4) 0xF) then false else all_digits bs

-- The loop over the bytes from the last to the first, `u32` throughout: the value and the
-- multiplier that it leaves.
abbrev pub bcd_value : List ℕ → ℕ × ℕ
bcd_value [] = (0, 1)
bcd_value (b ∷ bs) =
    let later = bcd_value bs in
    let value = (later.0 + bit_and b 0xF * later.1) % 2 ^ 32 in
    let multiplier = later.1 * 10 % 2 ^ 32 in
    ((value + bit_and (b / 2 ^ 4) 0xF * multiplier) % 2 ^ 32, multiplier * 10 % 2 ^ 32)

pub decode_bytes : List ℕ × List ℕ → IResult ℕ
decode_bytes (input, bytes) =
    if all_digits bytes then ok (input, (bcd_value bytes).0) else err (error input verify)

module _ (nom : Nom) where
  pub decode_bcd : List ℕ → IResult ℕ
  unfolding decode_bytes
  decode_bcd input = nom.take_bytes 4 input >>= decode_bytes

-- `v as i32`, which keeps the low 32 bits.
pub to_i32 : ℕ → ℤ
to_i32 v = let w = v % 2 ^ 32 in if ltb w (2 ^ 31) then pos w else negsuc (2 ^ 32 - 1 - w)

abbrev map_i32 : IResult ℕ → IResult ℤ
map_i32 (ok (rest, v)) = ok (rest, to_i32 v)
map_i32 (err e) = err e

module _ (nom : Nom) where
  pub decode_int : List ℕ → ℕ → IResult ℤ
  unfolding to_i32
  decode_int input size =
      if size == 1
      then map_i32 (nom.be_u8 input)
      else if size == 2
      then map_i32 (nom.be_u16 input)
      else if size == 4
      then map_i32 (nom.be_u32 input)
      else if size == 8
      then map_i32 (nom.be_u64 input)
      else err (error input tag)

-- One round of the loop: the byte that is written, and the input that is left.
abbrev pub encode_round : ℕ → ℕ × ℕ
encode_round input =
    if ltb 0 input
    then (bit_or (input / 10 % 10 % 2 ^ 8 * 2 ^ 4 % 2 ^ 8) (input % 10), input / 10 / 10)
    else (0, input)

-- The four rounds, which write from the last byte to the first.
pub encode_bcd : ℕ → List ℕ
encode_bcd input =
    let r3 = encode_round input in
    let r2 = encode_round r3.1 in
    let r1 = encode_round r2.1 in let r0 = encode_round r1.1 in r0.0 ∷ r1.0 ∷ r2.0 ∷ r3.0 ∷ []

abbrev pub is_ascii_alphabetic : ℕ → Bool
is_ascii_alphabetic c = (leb 0x41 c && leb c 0x5A) || (leb 0x61 c && leb c 0x7A)

pub manufacturer_id : ℕ → ℕ → ℕ → ℕ
manufacturer_id a b c =
    bit_and (a - 64) 0x1F * 32 * 32 + bit_and (b - 64) 0x1F * 32 + bit_and (c - 64) 0x1F

-- `manufacturer` is the list of its bytes: where all are ASCII letters, these are its characters.
pub mbus_data_manufacturer_encode : List ℕ → Result MBusError (List ℕ)
unfolding manufacturer_id
mbus_data_manufacturer_encode (a ∷ b ∷ c ∷ []) =
    if is_ascii_alphabetic a && is_ascii_alphabetic b && is_ascii_alphabetic c
    then (let id = manufacturer_id a b c in
        if leb 0x0421 id && leb id 0x6B5A
        then ok (id / 2 ^ 8 % 2 ^ 8 ∷ bit_and id 0xFF ∷ [])
        else err invalid_manufacturer_id)
    else err invalid_manufacturer
mbus_data_manufacturer_encode manufacturer = err invalid_manufacturer

pub mbus_decode_manufacturer : ℕ → ℕ → List ℕ
mbus_decode_manufacturer byte1 byte2 =
    let id = byte1 * 2 ^ 8 + byte2 in
    (id / (32 * 32) + 64) ∷ (id % (32 * 32) / 32 + 64) ∷ (id % (32 * 32) % 32 + 64) ∷ []
