-- ===== src/Wmbus/Crc/Verify.antt =====
-- `verify_crc_be` on a message that is followed by two bytes.
use mbuscrate.Prelude.{
  ◌/◌, IsU16, Bool-cases, inl, inr, ℕ, ◌+◌, ◌-◌, ◌*◌, ◌%◌, ◌^◌, ◌≡◌, sym, ap, ◌∙◌, List, [], ◌∷◌,
  ◌++◌, bit_or, arith, All, IsByte, length, length-append, take-append, drop-append, true, false,
  ==_iff, ◌==◌, ltb, ◌↔◌,
}
use mbuscrate.Prelude.Bits.{bit_or_shifted}
use mbuscrate.Wmbus.Crc.{calculate_wmbus_crc, read_crc_be, verify_crc_be}
use mbuscrate.Wmbus.Crc.Detect.{calculate_wmbus_crc_detects}

pub read_crc_be_pair : (h l : ℕ) → IsByte h → IsByte l → read_crc_be (h ∷ l ∷ []) ≡ h * 2 ^ 8 + l
unfolding read_crc_be
read_crc_be_pair h l hh hl = ap (λ (t : ℕ). bit_or t l) fits ∙ bit_or_shifted 8 h l hl
  where
    fits : h * 2 ^ 8 % 2 ^ 16 ≡ h * 2 ^ 8
    fits = omega arith

-- A CRC is a word of 16 bits, and is read back from its two bytes, high byte first.
pub calculate_wmbus_crc-IsU16 : (bytes : List ℕ) → IsU16 (calculate_wmbus_crc bytes)
unfolding calculate_wmbus_crc
calculate_wmbus_crc-IsU16 bytes = omega arith

pub read_crc_be-crc :
    (bytes : List ℕ)
    → read_crc_be (calculate_wmbus_crc bytes / 2 ^ 8 ∷ calculate_wmbus_crc bytes % 2 ^ 8 ∷ [])
      ≡ calculate_wmbus_crc bytes
read_crc_be-crc bytes =
    read_crc_be_pair (calculate_wmbus_crc bytes / 2 ^ 8) (calculate_wmbus_crc bytes % 2 ^ 8)
      (omega (arith, calculate_wmbus_crc-IsU16 bytes)) (omega arith)
    ∙ omega arith

verify_crc_be-eq :
    (front : List ℕ) (h l : ℕ)
    → IsByte h
    → IsByte l
    → verify_crc_be (front ++ (h ∷ l ∷ [])) ≡ (calculate_wmbus_crc front == h * 2 ^ 8 + l)
unfolding verify_crc_be
verify_crc_be-eq front h l hh hl =
    rw (long, cut, take-append front (h ∷ l ∷ []), drop-append front (h ∷ l ∷ []))
      (ap (λ (t : ℕ). calculate_wmbus_crc front == t) (read_crc_be_pair h l hh hl))
  where
    size : length (front ++ (h ∷ l ∷ [])) ≡ length front + 2
    size = length-append front (h ∷ l ∷ [])

    long : ltb (length (front ++ (h ∷ l ∷ []))) 2 ≡ false
    long = ground (arith, size)

    cut : length (front ++ (h ∷ l ∷ [])) - 2 ≡ length front
    cut = omega (arith, size)

-- A message followed by two bytes passes the check exactly when these are its CRC, high byte
-- first.
pub verify_crc_be_iff :
    (front : List ℕ) (h l : ℕ)
    → IsByte h
    → IsByte l
    → (verify_crc_be (front ++ (h ∷ l ∷ [])) ≡ true) ↔ (calculate_wmbus_crc front ≡ h * 2 ^ 8 + l)
verify_crc_be_iff front h l hh hl =
    rw (verify_crc_be-eq front h l hh hl) (==_iff (calculate_wmbus_crc front) (h * 2 ^ 8 + l))

-- If a frame of a message and its CRC passes the check, then a frame whose message differs from
-- it in one or two adjacent bytes, and nowhere else, fails it.
pub verify_crc_be_detects :
    (pre post : List ℕ) (a b c d h l : ℕ)
    → All IsByte (pre ++ (a ∷ b ∷ post))
    → All IsByte (pre ++ (c ∷ d ∷ post))
    → IsByte h
    → IsByte l
    → ¬ ((a ≡ c) × (b ≡ d))
    → verify_crc_be ((pre ++ (a ∷ b ∷ post)) ++ (h ∷ l ∷ [])) ≡ true
    → verify_crc_be ((pre ++ (c ∷ d ∷ post)) ++ (h ∷ l ∷ [])) ≡ false
verify_crc_be_detects pre post a b c d h l p q hh hl ne s =
    elim (Bool-cases (verify_crc_be ((pre ++ (c ∷ d ∷ post)) ++ (h ∷ l ∷ [])))) [
      | inl t ↦ absurd (
          ne (
            calculate_wmbus_crc_detects pre post a b c d p q
              ((verify_crc_be_iff _ h l hh hl).0 s ∙ sym ((verify_crc_be_iff _ h l hh hl).0 t))))
      | inr t ↦ t
    ]
