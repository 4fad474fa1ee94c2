-- ===== src/Payload/Encoding/Tests.antt =====
-- The theorems on encodings at concrete inputs.
use mbuscrate.Prelude.{◌+◌, ◌*◌, ◌≡◌, refl, [], ◌∷◌, arith, ok}
use mbuscrate.Payload.Encoding.{encode_bcd}
use mbuscrate.Payload.Encoding.Time.{decode_mbus_time}
use mbuscrate.Payload.Encoding.Time.Fields.{
  day_byte, month_byte, hour_byte, date_value, decode_mbus_time_lem,
}

bcd_digits : encode_bcd 12345678 ≡ 0x12 ∷ 0x34 ∷ 0x56 ∷ 0x78 ∷ []
unfolding encode_bcd
bcd_digits = refl

-- Noon and a quarter of the last day of 2024.
decode_mbus_time_lem_example :
    (decode_mbus_time (day_byte 24 31 ∷ month_byte 24 12 ∷ []) ≡ ok (date_value 24 12 31))
    × (decode_mbus_time (15 ∷ hour_byte 0 12 ∷ day_byte 24 31 ∷ month_byte 24 12 ∷ [])
        ≡ ok (date_value 24 12 31 + 12 * 3600 + 15 * 60))
    × (decode_mbus_time (9 ∷ 15 ∷ hour_byte 0 12 ∷ day_byte 24 31 ∷ month_byte 24 12 ∷ 0 ∷ [])
        ≡ ok (date_value 24 12 31 + 12 * 3600 + 15 * 60 + 9))
decode_mbus_time_lem_example = decode_mbus_time_lem 24 12 31 12 15 9 0 0 (omega arith) (omega arith)
