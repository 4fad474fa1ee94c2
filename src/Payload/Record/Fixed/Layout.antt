-- ===== src/Payload/Record/Fixed/Layout.antt =====
-- The fixed data record of EN 1434-3 as bytes, and parse_fixed_record of src/payload/record.rs on them.
use mbuscrate.Prelude.{
  ℕ, ◌+◌, ◌*◌, ◌^◌, ◌<◌, ◌≡◌, refl, sym, ap, ap₂, ◌/◌, ◌%◌, ◌∙◌, List, [], ◌∷◌, ◌++◌, true, false,
  leb, ltb, ◌==◌, length, if◌then◌else◌, ok, none, some, bit_and, replicate, ◌&&◌, arith,
  append-nil, drop, Bool-cases, inl, inr,
}
use mbuscrate.Prelude.Bits.{all_below, all_below_sound}
use mbuscrate.Nom.{Nom}
use mbuscrate.Payload.Encoding.{encode_bcd, decode_bcd}
use mbuscrate.Payload.Encoding.Bcd.{decode_bcd-encode_bcd, encode_bcd-eq}
use mbuscrate.Payload.Encoding.Integer.{decode_int_two, decode_int_four}
use mbuscrate.Payload.Record.{mbus_dif_datalength_lookup, blank_record}
use mbuscrate.Payload.Record.Fixed.{
  fixed_record, check_fixed, parse_fixed_record, normalize_fixed_unit, fixed_medium_codes, has_code,
}

-- The six bytes between the device's number and the signature.
pub record Head : Type 0 where
  pub high : ℕ
  pub low : ℕ
  pub version : ℕ
  pub medium : ℕ
  pub access_number : ℕ
  pub status : ℕ

-- Eight decimal digits, two in a byte, the highest first.
abbrev pub digit_pair : ℕ → ℕ
digit_pair n = n / 10 % 10 * 16 + n % 10

abbrev pub decimal_bytes : ℕ → List ℕ
decimal_bytes n =
    digit_pair (n / 1000000) ∷ digit_pair (n / 10000) ∷ digit_pair (n / 100) ∷ digit_pair n ∷ []

encode_bcd-decimal : (n : ℕ) → encode_bcd n ≡ decimal_bytes n
encode_bcd-decimal n =
    encode_bcd-eq n
    ∙ ap₂ (λ (x y : ℕ). digit_pair x ∷ digit_pair y ∷ digit_pair (n / 100) ∷ digit_pair n ∷ [])
        (omega arith) (omega arith)

abbrev pub fixed_bytes : ℕ → Head → ℕ → ℕ → List ℕ → List ℕ → List ℕ
fixed_bytes id head s1 s2 counter tail =
    decimal_bytes id
    ++ (head.high
        ∷ head.low
        ∷ head.version
        ∷ head.medium
        ∷ head.access_number
        ∷ head.status
        ∷ s1
        ∷ s2
        ∷ (counter ++ tail))

-- A counter that the format bit of the status describes.
pub data IsCounter (status : ℕ) : List ℕ → Type 0 where
  decimal :
      (n : ℕ) → n < 10 ^ 8 → (bit_and status 0x80 == 0) ≡ true → IsCounter status (decimal_bytes n)
  binary :
      (a b c d : ℕ) → (bit_and status 0x80 == 0) ≡ false → IsCounter status (a ∷ b ∷ c ∷ d ∷ [])

unit_table : all_below 0x80 (has_code fixed_medium_codes) ≡ true
unfolding all_below
unit_table = refl

unit_known : (medium : ℕ) → medium < 0x80 → normalize_fixed_unit medium ≡ ok tt
unfolding normalize_fixed_unit
unit_known medium h =
    rw (all_below_sound 0x80 (has_code fixed_medium_codes) medium unit_table h) refl

-- Four bytes that are a decimal number.
decode_number : (nom : Nom) (n : ℕ) → n < 10 ^ 8 → decode_bcd nom (decimal_bytes n) ≡ ok ([], n)
decode_number nom n small =
    ap (decode_bcd nom) (sym (encode_bcd-decimal n) ∙ sym (append-nil (encode_bcd n)))
    ∙ decode_bcd-encode_bcd nom n [] small

module _ (nom : Nom) (id : ℕ) (head : Head) (s1 s2 : ℕ) (tail : List ℕ) (small : id < 10 ^ 8)
    (maker : (leb 0x0421 (head.high * 256 + head.low) && leb (head.high * 256 + head.low) 0x6B5A)
      ≡ true)
    (medium : head.medium < 0x80) where
  check_fixed-layout :
      (counter : List ℕ)
      → IsCounter head.status counter
      → check_fixed nom (fixed_bytes id head s1 s2 counter tail) ≡ ok id
  unfolding check_fixed
  check_fixed-layout _ (binary a b c d format) =
      let long : ltb (length (replicate 16 0 ++ tail)) 16 ≡ false = ground arith in
      rw
        (
          decode_number nom id small,
          maker,
          format,
          decode_int_two nom s1 s2 [],
          decode_int_four nom a b c d [],
          unit_known head.medium medium,
        )
        (rw long refl)
  check_fixed-layout _ (decimal n fits format) =
      let long : ltb (length (replicate 16 0 ++ tail)) 16 ≡ false = ground arith in
      rw
        (
          decode_number nom id small,
          maker,
          format,
          decode_int_two nom s1 s2 [],
          decode_number nom n fits,
          unit_known head.medium medium,
        )
        (rw long refl)

  pub parse_fixed_record-layout :
      (counter : List ℕ)
      → IsCounter head.status counter
      → let input = fixed_bytes id head s1 s2 counter tail in
        parse_fixed_record nom input ≡ (
          if leb (length input) 256
          then some (ok (fixed_record input id (input ++ drop (length input) (replicate 256 0))))
          else none)
  unfolding parse_fixed_record
  parse_fixed_record-layout counter c =
      rw (check_fixed-layout counter c)
        (elim (Bool-cases (leb (length (fixed_bytes id head s1 s2 counter tail)) 256)) [
          | inl fits ↦ rw fits refl
          | inr long ↦ rw long refl
        ])

-- The header of a fixed record: no DIF, and the medium as its VIF.
pub fixed_record-dif :
    (input : List ℕ) (id : ℕ) (bytes : List ℕ)
    → mbus_dif_datalength_lookup (fixed_record input id bytes).dif ≡ 0
unfolding mbus_dif_datalength_lookup blank_record
fixed_record-dif input id bytes = refl

pub fixed_bytes-medium :
    (id : ℕ) (head : Head) (s1 s2 : ℕ) (counter tail bytes : List ℕ)
    → let input = fixed_bytes id head s1 s2 counter tail in
      (fixed_record input id bytes).vif ≡ head.medium
fixed_bytes-medium id head s1 s2 counter tail bytes = refl
