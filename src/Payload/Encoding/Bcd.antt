-- ===== src/Payload/Encoding/Bcd.antt =====
-- Binary-coded decimals there and back.
use mbuscrate.Prelude.{
  ℕ, zero, suc, ◌+◌, ◌*◌, ◌/◌, ◌%◌, ◌^◌, ◌<◌, ◌≡◌, refl, ap, ap₂, ◌∙◌, bit_and, bit_or, List, [],
  ◌∷◌, ◌++◌, true, false, ◌||◌, ltb, ok, arith, length,
}
use mbuscrate.Prelude.Bits.{bit_and_low, bit_or_shifted}
use mbuscrate.Nom.{Nom, take_bytes-append}
use mbuscrate.Payload.Encoding.{
  all_digits, bcd_value, decode_bytes, decode_bcd, encode_round, encode_bcd,
}

-- A byte with two decimal digits.
abbrev pub packed : ℕ → ℕ
packed n = n / 10 % 10 * 2 ^ 4 + n % 10

encode_round-eq : (n : ℕ) → encode_round n ≡ (packed n, n / 100)
encode_round-eq zero = refl
encode_round-eq (suc n) = rw positive (ap₂ (λ (x y : ℕ). (x, y)) byte (omega arith))
  where
    positive : ltb 0 (suc n) ≡ true
    positive = ground arith

    shifted : suc n / 10 % 10 % 2 ^ 8 * 2 ^ 4 % 2 ^ 8 ≡ suc n / 10 % 10 * 2 ^ 4
    shifted = omega arith

    byte : bit_or (suc n / 10 % 10 % 2 ^ 8 * 2 ^ 4 % 2 ^ 8) (suc n % 10) ≡ packed (suc n)
    byte = rw shifted (bit_or_shifted 4 (suc n / 10 % 10) (suc n % 10) (omega arith))

pub encode_bcd-eq :
    (n : ℕ)
    → encode_bcd n
      ≡ packed (n / 100 / 100 / 100) ∷ packed (n / 100 / 100) ∷ packed (n / 100) ∷ packed n ∷ []
unfolding encode_bcd
encode_bcd-eq n = simp (
  encode_round-eq n,
  encode_round-eq (n / 100),
  encode_round-eq (n / 100 / 100),
  encode_round-eq (n / 100 / 100 / 100),
)

low_digit : (n : ℕ) → bit_and (packed n) 0xF ≡ n % 10
low_digit n = omega (arith, bit_and_low 4 (packed n))

high_digit : (n : ℕ) → bit_and (packed n / 2 ^ 4) 0xF ≡ n / 10 % 10
high_digit n = omega (arith, bit_and_low 4 (packed n / 2 ^ 4))

packed-digits : (n : ℕ) (bs : List ℕ) → all_digits (packed n ∷ bs) ≡ all_digits bs
packed-digits n bs = rw (low_digit n, high_digit n, small) refl
  where
    small : (ltb 9 (n % 10) || ltb 9 (n / 10 % 10)) ≡ false
    small = ground arith

-- One byte in front, for each multiplier that the loop reaches: nothing wraps.
value_step :
    (m n v : ℕ) (bs : List ℕ)
    → bcd_value bs ≡ (v, m)
    → m * 100 < 2 ^ 32
    → v + n % 10 * m + n / 10 % 10 * (m * 10) < 2 ^ 32
    → bcd_value (packed n ∷ bs) ≡ (v + n % 10 * m + n / 10 % 10 * (m * 10), m * 100)
value_step m n v bs e fits small =
    rw (e, low_digit n, high_digit n) (ap₂ (λ (x y : ℕ). (x, y)) value (omega arith))
  where
    wraps_not : m * 10 % 2 ^ 32 ≡ m * 10
    wraps_not = omega arith

    value :
        ((v + n % 10 * m) % 2 ^ 32 + n / 10 % 10 * (m * 10 % 2 ^ 32)) % 2 ^ 32
        ≡ v + n % 10 * m + n / 10 % 10 * (m * 10)
    value = rw wraps_not (omega arith)

four_bytes :
    (n : ℕ)
    → n < 10 ^ 8
    → (bcd_value (
        packed (n / 100 / 100 / 100) ∷ packed (n / 100 / 100) ∷ packed (n / 100) ∷ packed n ∷ [])).0
      ≡ n
four_bytes n small =
    let v3 = value_step 1 n 0 [] refl (omega arith) (omega arith) in
    let v2 = value_step 100 (n / 100) _ (packed n ∷ []) v3 (omega arith) (omega arith) in
    let v1 =
      value_step 10000 (n / 100 / 100) _ (packed (n / 100) ∷ packed n ∷ []) v2 (omega arith)
        (omega arith) in
    let v0 =
      value_step 1000000 (n / 100 / 100 / 100) _
        (packed (n / 100 / 100) ∷ packed (n / 100) ∷ packed n ∷ []) v1 (omega arith)
        (omega arith) in
    ap (λ (p : ℕ × ℕ). p.0) v0 ∙ omega arith

-- Decoding what `encode_bcd` wrote gives the number back, with what follows left over, for every
-- number of at most eight decimal digits.
pub decode_bcd-encode_bcd :
    (nom : Nom) (n : ℕ) (rest : List ℕ)
    → n < 10 ^ 8
    → decode_bcd nom (encode_bcd n ++ rest) ≡ ok (rest, n)
unfolding decode_bcd decode_bytes
decode_bcd-encode_bcd nom n rest small = rw (encode_bcd-eq n) (
    rw
      (take_bytes-append nom
        (packed (n / 100 / 100 / 100) ∷ packed (n / 100 / 100) ∷ packed (n / 100) ∷ packed n ∷ [])
        rest)
      (simp (packed-digits, four_bytes n small)))

-- The encoder fills four bytes.
pub encode_bcd_cells : (n : ℕ) → (a b c d : ℕ) × (encode_bcd n ≡ a ∷ b ∷ c ∷ d ∷ [])
encode_bcd_cells n = (
  packed (n / 100 / 100 / 100),
  packed (n / 100 / 100),
  packed (n / 100),
  packed n,
  encode_bcd-eq n,
)

pub length-encode_bcd : (n : ℕ) → length (encode_bcd n) ≡ 4
length-encode_bcd n = rw (encode_bcd-eq n) refl
