-- ===== src/Payload/Encoding/Time.antt =====
-- src/payload/data_encoding.rs: the three time types. An instant is its seconds after the epoch; the
-- subtraction from the month wraps, and no other sum of bytes reaches 2 ^ 8.
pub mod Fields
use mbuscrate.Prelude.{
  ℕ, zero, suc, ◌+◌, ◌*◌, ◌/◌, ◌%◌, ◌^◌, bit_and, bit_or, List, [], ◌∷◌, Bool, true, false, ◌==◌,
  if◌then◌else◌, length, Result, ok, err, ◌>>=◌,
}
use mbuscrate.Nom.{Nom, IResult}

-- `MBusTimeDecodeError`, the variants that are returned.
pub data MBusTimeDecodeError : Type 0 where
  invalid_time_data : MBusTimeDecodeError
  invalid_time_data_length : ℕ → MBusTimeDecodeError

-- The fields of a date, in the bytes with the day and with the month.
pub year : ℕ → ℕ → ℕ
year low high = 100 + bit_or (bit_and low 0xE0 / 2 ^ 5) (bit_and high 0xF0 / 2)

pub month : ℕ → ℕ
month byte = (bit_and byte 0x0F + 255) % 2 ^ 8

pub date_secs : ℕ → ℕ → ℕ
unfolding year month
date_secs low high = year low high * 31536000 + month high * 2592000 + bit_and low 0x1F * 86400

pub decode_mbus_time : List ℕ → Result MBusTimeDecodeError ℕ
unfolding date_secs
decode_mbus_time (b0 ∷ b1 ∷ []) = ok (date_secs b0 b1)
decode_mbus_time (b0 ∷ b1 ∷ b2 ∷ b3 ∷ []) =
    if bit_and b0 0x80 == 0
    then ok (date_secs b2 b3 + bit_and b1 0x1F * 3600 + bit_and b0 0x3F * 60)
    else err invalid_time_data
decode_mbus_time (b0 ∷ b1 ∷ b2 ∷ b3 ∷ b4 ∷ b5 ∷ []) =
    if bit_and b0 0x40 == 0
    then ok (date_secs b3 b4 + bit_and b2 0x1F * 3600 + bit_and b1 0x3F * 60 + bit_and b0 0x3F)
    else err invalid_time_data
decode_mbus_time [] = err (invalid_time_data_length 0)
decode_mbus_time (b0 ∷ []) = err (invalid_time_data_length 1)
decode_mbus_time (b0 ∷ b1 ∷ b2 ∷ []) = err (invalid_time_data_length 3)
decode_mbus_time (b0 ∷ b1 ∷ b2 ∷ b3 ∷ b4 ∷ []) = err (invalid_time_data_length 5)
decode_mbus_time (b0 ∷ b1 ∷ b2 ∷ b3 ∷ b4 ∷ b5 ∷ b6 ∷ bs) =
    err (invalid_time_data_length (7 + length bs))
