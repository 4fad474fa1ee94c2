-- ===== src/Wmbus/Crc/Tests.antt =====
-- Runs of the CRC at the values of crc.rs's unit tests, and its theorems at concrete inputs.
use mbuscrate.Prelude.{ℕ, ◌≡◌, refl, List, [], ◌∷◌, ◌++◌, arith, true, false}
use mbuscrate.Wmbus.Crc.{
  crc_bits, crc_bit, crc_loop, crc_step, build_table, build_table_from, calculate_wmbus_crc,
  verify_crc_be,
}
use mbuscrate.Wmbus.Crc.Serial.{
  reference, calculate_wmbus_crc-eq-reference, reference_loop, reference_step,
}
use mbuscrate.Wmbus.Crc.Verify.{verify_crc_be_iff, verify_crc_be_detects}

-- The ASCII digits "123456789".
abbrev digits : List ℕ
digits = 0x31 ∷ 0x32 ∷ 0x33 ∷ 0x34 ∷ 0x35 ∷ 0x36 ∷ 0x37 ∷ 0x38 ∷ 0x39 ∷ []

reference_check_value : reference digits ≡ 0xC2B7
unfolding reference reference_loop reference_step crc_bits crc_bit
reference_check_value = refl

check_value : calculate_wmbus_crc digits ≡ 0xC2B7
unfolding reference reference_loop reference_step crc_bits crc_bit
check_value = calculate_wmbus_crc-eq-reference digits (omega arith)

table_run : calculate_wmbus_crc (0x31 ∷ []) ≡ reference (0x31 ∷ [])
unfolding calculate_wmbus_crc crc_loop crc_step build_table build_table_from crc_bits crc_bit
    reference reference_loop reference_step
table_run = refl

calculate_wmbus_crc-eq-reference_example : calculate_wmbus_crc digits ≡ reference digits
calculate_wmbus_crc-eq-reference_example = calculate_wmbus_crc-eq-reference digits (omega arith)

accepted : verify_crc_be (digits ++ (0xC2 ∷ 0xB7 ∷ [])) ≡ true
accepted = (verify_crc_be_iff digits 0xC2 0xB7 (omega arith) (omega arith)).1 check_value

-- The second and third digits corrupted.
verify_crc_be_detects_example :
    verify_crc_be
      ((0x31 ∷ 0x30 ∷ 0x43 ∷ 0x34 ∷ 0x35 ∷ 0x36 ∷ 0x37 ∷ 0x38 ∷ 0x39 ∷ []) ++ (0xC2 ∷ 0xB7 ∷ []))
    ≡ false
verify_crc_be_detects_example =
    verify_crc_be_detects (0x31 ∷ []) (0x34 ∷ 0x35 ∷ 0x36 ∷ 0x37 ∷ 0x38 ∷ 0x39 ∷ []) 0x32 0x33 0x30
      0x43 0xC2 0xB7 (omega arith) (omega arith) (omega arith) (omega arith) (omega arith) accepted
