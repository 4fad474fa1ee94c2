-- ===== src/Wmbus/Crc/Linear.antt =====
-- The shift register is linear over exclusive or, and loses nothing.
use mbuscrate.Prelude.{
  ℕ, zero, suc, ◌+◌, ◌*◌, ◌/◌, ◌%◌, ◌^◌, ◌<◌, ◌≡◌, refl, sym, ap, ap₂, subst, ◌∙◌, bit_xor, arith,
  IsU16, IsByte,
}
use mbuscrate.Prelude.Bits.{
  bit_xor_fields, bit_xor_join, bit_xor_self, bit_xor-zero, bit_xor_middle, bit_xor-mul_two,
  eq_of_bit_xor, bit_xor-lt, bit_and_bit,
}
use mbuscrate.Wmbus.Crc.{wmbus_crc_poly, crc_bit, crc_bits}

-- A word split into its top bit `p` and the 15 bits below it.
abbrev word : ℕ → ℕ → ℕ
word p r = p * 2 ^ 15 + r

crc_bit-word :
    (p r : ℕ) → p < 2 → r < 2 ^ 15 → crc_bit (word p r) ≡ bit_xor (r * 2) (p * wmbus_crc_poly)
unfolding crc_bit
crc_bit-word zero r hp hr = rw (bit_and_bit 15 0 r hr) (omega (arith, bit_xor-zero (r * 2)))
crc_bit-word (suc zero) r hp hr = rw (bit_and_bit 15 1 r hr, low)
  where
    low : word 1 r * 2 % 2 ^ 16 ≡ r * 2
    low = omega arith
crc_bit-word (suc (suc p)) r hp hr = absurd (omega arith)

bit_xor-poly :
    (p q : ℕ)
    → p < 2
    → q < 2
    → bit_xor p q * wmbus_crc_poly ≡ bit_xor (p * wmbus_crc_poly) (q * wmbus_crc_poly)
bit_xor-poly zero zero hp hq = refl
bit_xor-poly zero (suc zero) hp hq = refl
bit_xor-poly (suc zero) zero hp hq = refl
bit_xor-poly (suc zero) (suc zero) hp hq = refl
bit_xor-poly zero (suc (suc q)) hp hq = absurd (omega arith)
bit_xor-poly (suc zero) (suc (suc q)) hp hq = absurd (omega arith)
bit_xor-poly (suc (suc p)) q hp hq = absurd (omega arith)

crc_bit-bit_xor-word :
    (p r q s : ℕ)
    → p < 2
    → r < 2 ^ 15
    → q < 2
    → s < 2 ^ 15
    → crc_bit (bit_xor (word p r) (word q s)) ≡ bit_xor (crc_bit (word p r)) (crc_bit (word q s))
crc_bit-bit_xor-word p r q s hp hr hq hs =
    ap crc_bit (bit_xor_fields 15 p r q s hr hs)
    ∙ crc_bit-word (bit_xor p q) (bit_xor r s) (bit_xor-lt 1 p q hp hq) (bit_xor-lt 15 r s hr hs)
    ∙ ap₂ bit_xor (sym (bit_xor-mul_two r s)) (bit_xor-poly p q hp hq)
    ∙ bit_xor_middle (r * 2) (s * 2) (p * wmbus_crc_poly) (q * wmbus_crc_poly)
    ∙ sym (ap₂ bit_xor (crc_bit-word p r hp hr) (crc_bit-word q s hq hs))

word_split : (a : ℕ) → word (a / 2 ^ 15) (a % 2 ^ 15) ≡ a
word_split a = omega arith

pub crc_bit-bit_xor :
    (a b : ℕ) → IsU16 a → IsU16 b → crc_bit (bit_xor a b) ≡ bit_xor (crc_bit a) (crc_bit b)
crc_bit-bit_xor a b ha hb =
    subst (λ (x : ℕ). crc_bit (bit_xor x b) ≡ bit_xor (crc_bit x) (crc_bit b)) (word_split a)
      (subst
        (λ (y : ℕ).
          crc_bit (bit_xor (word (a / 2 ^ 15) (a % 2 ^ 15)) y)
          ≡ bit_xor (crc_bit (word (a / 2 ^ 15) (a % 2 ^ 15))) (crc_bit y))
        (word_split b)
        (crc_bit-bit_xor-word (a / 2 ^ 15) (a % 2 ^ 15) (b / 2 ^ 15) (b % 2 ^ 15) (omega arith)
          (omega arith) (omega arith) (omega arith)))

pub crc_bit-IsU16 : (a : ℕ) → IsU16 a → IsU16 (crc_bit a)
crc_bit-IsU16 a ha =
    subst IsU16
      (sym (
        ap crc_bit (sym (word_split a))
        ∙ crc_bit-word (a / 2 ^ 15) (a % 2 ^ 15) (omega arith) (omega arith)))
      (bit_xor-lt 16 _ _ (omega arith) (omega arith))

pub crc_bits-IsU16 : (n a : ℕ) → IsU16 a → IsU16 (crc_bits n a)
unfolding crc_bits
crc_bits-IsU16 zero a ha = ha
crc_bits-IsU16 (suc n) a ha = crc_bits-IsU16 n (crc_bit a) (crc_bit-IsU16 a ha)

-- The register after `n` rounds is linear in the register before.
pub crc_bits-bit_xor :
    (n a b : ℕ)
    → IsU16 a
    → IsU16 b
    → crc_bits n (bit_xor a b) ≡ bit_xor (crc_bits n a) (crc_bits n b)
unfolding crc_bits
crc_bits-bit_xor zero a b ha hb = refl
crc_bits-bit_xor (suc n) a b ha hb =
    ap (crc_bits n) (crc_bit-bit_xor a b ha hb)
    ∙ crc_bits-bit_xor n (crc_bit a) (crc_bit b) (crc_bit-IsU16 a ha) (crc_bit-IsU16 b hb)

-- A round whose result is 0 started from 0: the generator is odd.
crc_bit-eq_zero : (a : ℕ) → IsU16 a → crc_bit a ≡ 0 → a ≡ 0
crc_bit-eq_zero a ha h = step (a / 2 ^ 15) (a % 2 ^ 15) (omega arith) (omega arith) (word_split a)
  where
    step : (p r : ℕ) → p < 2 → r < 2 ^ 15 → word p r ≡ a → a ≡ 0
    step zero r hp hr e = omega (arith, even, bit_xor-zero (r * 2), e)
      where
        even : bit_xor (r * 2) 0 ≡ 0
        even = sym (crc_bit-word 0 r hp hr) ∙ ap crc_bit e ∙ h
    step (suc zero) r hp hr e = absurd (omega (arith, odd))
      where
        odd : r * 2 ≡ wmbus_crc_poly
        odd = eq_of_bit_xor (r * 2) wmbus_crc_poly (sym (crc_bit-word 1 r hp hr) ∙ ap crc_bit e ∙ h)
    step (suc (suc p)) r hp hr e = absurd (omega arith)

crc_bits-eq_zero : (n a : ℕ) → IsU16 a → crc_bits n a ≡ 0 → a ≡ 0
unfolding crc_bits
crc_bits-eq_zero zero a ha h = h
crc_bits-eq_zero (suc n) a ha h =
    crc_bit-eq_zero a ha (crc_bits-eq_zero n (crc_bit a) (crc_bit-IsU16 a ha) h)

-- Different registers stay different.
pub crc_bits_injective : (n a b : ℕ) → IsU16 a → IsU16 b → crc_bits n a ≡ crc_bits n b → a ≡ b
crc_bits_injective n a b ha hb h =
    eq_of_bit_xor a b (crc_bits-eq_zero n (bit_xor a b) (bit_xor-lt 16 a b ha hb) zero_after)
  where
    zero_after : crc_bits n (bit_xor a b) ≡ 0
    zero_after = crc_bits-bit_xor n a b ha hb ∙ rw h (bit_xor_self (crc_bits n b))

crc_bit_low : (l : ℕ) → l < 2 ^ 15 → crc_bit l ≡ l * 2
crc_bit_low l h = ap crc_bit (sym below) ∙ crc_bit-word 0 l (omega arith) h ∙ bit_xor-zero (l * 2)
  where
    below : word 0 l ≡ l
    below = omega arith

-- Rounds in which no bit leaves the register are shifts.
pub crc_bits_low : (l : ℕ) → l < 2 ^ 8 → crc_bits 8 l ≡ l * 2 ^ 8
unfolding crc_bits
crc_bits_low l h =
    rw
      (
        crc_bit_low l (omega arith),
        crc_bit_low (l * 2) (omega arith),
        crc_bit_low (l * 2 * 2) (omega arith),
        crc_bit_low (l * 2 * 2 * 2) (omega arith),
        crc_bit_low (l * 2 * 2 * 2 * 2) (omega arith),
        crc_bit_low (l * 2 * 2 * 2 * 2 * 2) (omega arith),
        crc_bit_low (l * 2 * 2 * 2 * 2 * 2 * 2) (omega arith),
        crc_bit_low (l * 2 * 2 * 2 * 2 * 2 * 2 * 2) (omega arith),
      )
      (omega arith)

-- A register with the byte `x` on top of the byte `l`.
pub crc_bits_top :
    (x l : ℕ)
    → IsByte x
    → IsByte l
    → crc_bits 8 (x * 2 ^ 8 + l) ≡ bit_xor (crc_bits 8 (x * 2 ^ 8)) (l * 2 ^ 8)
crc_bits_top x l hx hl =
    ap (crc_bits 8) (sym joined)
    ∙ crc_bits-bit_xor 8 (x * 2 ^ 8) l (omega arith) (omega arith)
    ∙ ap (bit_xor (crc_bits 8 (x * 2 ^ 8))) (crc_bits_low l hl)
  where
    joined : bit_xor (x * 2 ^ 8) l ≡ x * 2 ^ 8 + l
    joined = bit_xor_join 8 x l hl
