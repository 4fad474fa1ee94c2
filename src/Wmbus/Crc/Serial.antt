-- ===== src/Wmbus/Crc/Serial.antt =====
-- The table-driven CRC against the shift register that works bit by bit.
use mbuscrate.Prelude.{
  subst, ℕ, ◌+◌, ◌-◌, ◌*◌, ◌/◌, ◌%◌, ◌^◌, ◌≡◌, refl, sym, ap, ◌∙◌, List, [], ◌∷◌, bit_and, bit_xor,
  arith, All, IsByte, IsU16,
}
use mbuscrate.Prelude.Bits.{bit_xor_fields, bit_xor-zero, bit_xor-lt, bit_and_low, bit_xor_comm}
use mbuscrate.Wmbus.Crc.{crc_bits, crc_step, crc_loop, calculate_wmbus_crc}
use mbuscrate.Wmbus.Crc.Linear.{crc_bits-IsU16, crc_bits_top}
use mbuscrate.Wmbus.Crc.Table.{get_or-build_table}

-- The bit-serial algorithm of the unit tests of crc.rs: the byte enters at the top of the
-- register, which then makes eight rounds.
unfoldable pub reference_step : ℕ → ℕ → ℕ
reference_step rem b = crc_bits 8 (bit_xor rem (b * 2 ^ 8 % 2 ^ 16))

unfoldable pub reference_loop : ℕ → List ℕ → ℕ
reference_loop rem [] = rem
reference_loop rem (b ∷ bs) = reference_loop (reference_step rem b) bs

unfoldable pub reference : List ℕ → ℕ
reference bytes = 0xFFFF - reference_loop 0 bytes

step_halves :
    (h l b : ℕ)
    → IsByte h
    → IsByte l
    → IsByte b
    → crc_step (h * 2 ^ 8 + l) b ≡ reference_step (h * 2 ^ 8 + l) b
unfolding crc_step reference_step
step_halves h l b hh hl hb =
    rw (high, whole, get_or-build_table (bit_xor h b) x_byte, low)
      (bit_xor_comm (l * 2 ^ 8) (crc_bits 8 (bit_xor h b * 2 ^ 8))
        ∙ sym (crc_bits_top (bit_xor h b) l x_byte hl)
        ∙ ap (crc_bits 8) (sym entered))
  where
    x_byte : IsByte (bit_xor h b)
    x_byte = bit_xor-lt 8 h b hh hb

    high : (h * 2 ^ 8 + l) / 2 ^ 8 ≡ h
    high = omega arith

    low : (h * 2 ^ 8 + l) * 2 ^ 8 % 2 ^ 16 ≡ l * 2 ^ 8
    low = omega arith

    whole : bit_and (bit_xor h b) 0xFF ≡ bit_xor h b
    whole = bit_and_low 8 (bit_xor h b) ∙ omega (arith, x_byte)

    shifted : b * 2 ^ 8 % 2 ^ 16 ≡ b * 2 ^ 8 + 0
    shifted = omega arith

    entered : bit_xor (h * 2 ^ 8 + l) (b * 2 ^ 8 % 2 ^ 16) ≡ bit_xor h b * 2 ^ 8 + l
    entered =
        ap (bit_xor (h * 2 ^ 8 + l)) shifted
        ∙ bit_xor_fields 8 h l b 0 hl (omega arith)
        ∙ omega (arith, bit_xor-zero l)

pub crc_step-eq-reference_step :
    (crc b : ℕ) → IsU16 crc → IsByte b → crc_step crc b ≡ reference_step crc b
crc_step-eq-reference_step crc b hc hb =
    subst (λ (x : ℕ). crc_step x b ≡ reference_step x b) whole
      (step_halves (crc / 2 ^ 8) (crc % 2 ^ 8) b (omega arith) (omega arith) hb)
  where
    whole : crc / 2 ^ 8 * 2 ^ 8 + crc % 2 ^ 8 ≡ crc
    whole = omega arith

pub reference_step-IsU16 : (rem b : ℕ) → IsU16 rem → IsU16 (reference_step rem b)
unfolding reference_step
reference_step-IsU16 rem b h = crc_bits-IsU16 8 _ (bit_xor-lt 16 rem _ h (omega arith))

pub crc_loop-eq-reference_loop :
    (crc : ℕ) (bytes : List ℕ)
    → IsU16 crc
    → All IsByte bytes
    → crc_loop crc bytes ≡ reference_loop crc bytes
unfolding crc_loop reference_loop
crc_loop-eq-reference_loop crc [] hc hb = refl
crc_loop-eq-reference_loop crc (b ∷ bs) hc hb =
    ap (λ (c : ℕ). crc_loop c bs) (crc_step-eq-reference_step crc b hc hb.0)
    ∙ crc_loop-eq-reference_loop (reference_step crc b) bs (reference_step-IsU16 crc b hc) hb.1

-- On bytes, the CRC computed with the table of 256 entries is the CRC of the bit-serial shift
-- register.
pub calculate_wmbus_crc-eq-reference :
    (bytes : List ℕ) → All IsByte bytes → calculate_wmbus_crc bytes ≡ reference bytes
unfolding calculate_wmbus_crc reference
calculate_wmbus_crc-eq-reference bytes h =
    ap (λ (c : ℕ). 0xFFFF - c) (crc_loop-eq-reference_loop 0 bytes (omega arith) h)
