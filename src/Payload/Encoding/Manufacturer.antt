-- ===== src/Payload/Encoding/Manufacturer.antt =====
-- Manufacturer codes there and back.
use mbuscrate.Prelude.{
  ℕ, ◌+◌, ◌-◌, ◌*◌, ◌/◌, ◌%◌, ◌^◌, ◌≤◌, ◌≡◌, refl, ap₂, bit_and, [], ◌∷◌, true, ◌&&◌, leb, ok,
  arith,
}
use mbuscrate.Prelude.Bits.{bit_and_low}
use mbuscrate.Payload.Encoding.{
  is_ascii_alphabetic, manufacturer_id, mbus_data_manufacturer_encode, mbus_decode_manufacturer,
}

-- The upper-case letters.
abbrev pub IsUpper : ℕ → Type 0
IsUpper c = (0x41 ≤ c) × (c ≤ 0x5A)

upper-alphabetic : (c : ℕ) → IsUpper c → is_ascii_alphabetic c ≡ true
upper-alphabetic c (lo, hi) = ground arith

letter : (c : ℕ) → IsUpper c → bit_and (c - 64) 0x1F ≡ c - 64
letter c (lo, hi) = omega (arith, bit_and_low 5 (c - 64))

manufacturer_id-eq :
    (a b c : ℕ)
    → IsUpper a
    → IsUpper b
    → IsUpper c
    → manufacturer_id a b c ≡ (a - 64) * 1024 + (b - 64) * 32 + (c - 64)
unfolding manufacturer_id
manufacturer_id-eq a b c ha hb hc = rw (letter a ha, letter b hb, letter c hc) (omega arith)

-- The code of three upper-case letters is two bytes that `mbus_decode_manufacturer` turns back into
-- the letters.
pub mbus_decode_manufacturer-encode :
    (a b c : ℕ)
    → IsUpper a
    → IsUpper b
    → IsUpper c
    → (h l : ℕ) × (mbus_data_manufacturer_encode (a ∷ b ∷ c ∷ []) ≡ ok (h ∷ l ∷ []))
      × (mbus_decode_manufacturer h l ≡ a ∷ b ∷ c ∷ [])
unfolding mbus_data_manufacturer_encode mbus_decode_manufacturer
mbus_decode_manufacturer-encode a b c ha hb hc = (
  id / 2 ^ 8 % 2 ^ 8,
  bit_and id 0xFF,
  rw (upper-alphabetic a ha, upper-alphabetic b hb, upper-alphabetic c hc, in_range) refl,
  rw whole letters,
)
  where
    id : ℕ
    id = manufacturer_id a b c

    sum : manufacturer_id a b c ≡ (a - 64) * 1024 + (b - 64) * 32 + (c - 64)
    sum = manufacturer_id-eq a b c ha hb hc

    in_range : (leb 0x0421 (manufacturer_id a b c) && leb (manufacturer_id a b c) 0x6B5A) ≡ true
    in_range = rw sum (ground arith)

    whole :
        manufacturer_id a b c / 2 ^ 8 % 2 ^ 8 * 2 ^ 8 + bit_and (manufacturer_id a b c) 0xFF
        ≡ manufacturer_id a b c
    whole = omega (arith, sum, bit_and_low 8 (manufacturer_id a b c))

    letters :
        (manufacturer_id a b c / (32 * 32) + 64)
          ∷ (manufacturer_id a b c % (32 * 32) / 32 + 64)
          ∷ (manufacturer_id a b c % (32 * 32) % 32 + 64)
          ∷ []
        ≡ a ∷ b ∷ c ∷ []
    letters =
        ap₂ ◌∷◌ (omega (arith, sum))
          (ap₂ ◌∷◌ (omega (arith, sum)) (ap₂ ◌∷◌ (omega (arith, sum)) refl))
