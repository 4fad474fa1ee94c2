-- ===== src/Vendors/Manufacturer/Codes.antt =====
-- The codes of src/vendors/manufacturer.rs there and back.
use mbuscrate.Prelude.{
  ◌↔◌, All, length, Bool-cases, inl, inr, ==_iff, ◌==◌, true, none, arith, ℕ, ◌+◌, ◌-◌, ◌*◌, ◌/◌,
  ◌%◌, ◌^◌, ◌≤◌, ◌<◌, ◌≡◌, ◌⊎◌, refl, ap, ◌∙◌, bit_and, List, [], ◌∷◌, ◌++◌, Bool, false, leb,
  if◌then◌else◌, some,
}
use mbuscrate.Prelude.Bits.{bit_and_low, bit_and_bit, bit_or_above}
use mbuscrate.Vendors.Manufacturer.{
  Uppercase, byte_len, utf8_len, all_upper, encode_chars, upper, manufacturer_to_id,
  id_to_manufacturer, is_valid_id, is_soft_address, set_soft_address, in_range,
}

-- A letter of ASCII, and the same in upper case.
abbrev pub IsLetter : ℕ → Type 0
IsLetter c = ((0x41 ≤ c) × (c ≤ 0x5A)) ⊎ ((0x61 ≤ c) × (c ≤ 0x7A))

abbrev pub capital : ℕ → ℕ
capital c = if leb 0x61 c then c - 32 else c

abbrev pub code_of : ℕ → ℕ → ℕ → ℕ
code_of a b c = (capital a - 64) * 1024 + (capital b - 64) * 32 + (capital c - 64)

capital_bounds : (c : ℕ) → IsLetter c → (0x41 ≤ capital c) × (capital c ≤ 0x5A)
capital_bounds c h = ground arith

in_range_lem : (v : ℕ) → (1 ≤ v) × (v ≤ 26) → in_range v ≡ true
in_range_lem v h = ground arith

-- Decoding the formula; the highest bit is masked out.
decode_lem :
    (h a b c : ℕ)
    → (1 ≤ a) × (a ≤ 26)
    → (1 ≤ b) × (b ≤ 26)
    → (1 ≤ c) × (c ≤ 26)
    → id_to_manufacturer (h * 2 ^ 15 + (a * 1024 + b * 32 + c))
      ≡ (a + 64) ∷ (b + 64) ∷ (c + 64) ∷ []
unfolding id_to_manufacturer
decode_lem h a b c ha hb hc =
    let word : ℕ = h * 2 ^ 15 + (a * 1024 + b * 32 + c) in
    let low : bit_and word 0x7FFF ≡ a * 1024 + b * 32 + c = omega (arith, bit_and_low 15 word) in
    let third : (a * 1024 + b * 32 + c) % 32 ≡ c = omega arith in
    let second : (a * 1024 + b * 32 + c) / 32 % 32 ≡ b = omega arith in
    let first : (a * 1024 + b * 32 + c) / 1024 ≡ a = omega arith in
    rw (low, third, second, first, in_range_lem a ha, in_range_lem b hb, in_range_lem c hc) refl

abbrev bit_of : Bool → ℕ
bit_of true = 1
bit_of false = 0

set_soft_lem :
    (soft : Bool) (id : ℕ) → id < 2 ^ 15 → set_soft_address id soft ≡ bit_of soft * 2 ^ 15 + id
unfolding set_soft_address
set_soft_lem true id small = bit_or_above 15 1 id small
set_soft_lem false id small = omega (arith, bit_and_low 15 id)

valid_lem : (h id : ℕ) → 0x0421 ≤ id → id ≤ 0x6B5A → is_valid_id (h * 2 ^ 15 + id) ≡ true
unfolding is_valid_id
valid_lem h id low high =
    let masked : bit_and (h * 2 ^ 15 + id) 0x7FFF ≡ id =
      omega (arith, bit_and_low 15 (h * 2 ^ 15 + id)) in
    let above : leb 0x0421 id ≡ true = ground arith in
    let below : leb id 0x6B5A ≡ true = ground arith in rw (masked, above, below) refl

is_soft_lem :
    (soft : Bool) (id : ℕ) → id < 2 ^ 15 → is_soft_address (bit_of soft * 2 ^ 15 + id) ≡ soft
unfolding is_soft_address
is_soft_lem true id small = rw (bit_and_bit 15 1 id small) refl
is_soft_lem false id small = rw (bit_and_bit 15 0 id small) refl

back :
    (a b c : ℕ)
    → 0x41 ≤ a
    → 0x41 ≤ b
    → 0x41 ≤ c
    → (a - 64 + 64) ∷ (b - 64 + 64) ∷ (c - 64 + 64) ∷ [] ≡ a ∷ b ∷ c ∷ []
back a b c ha hb hc =
    let first : a - 64 + 64 ≡ a = omega arith in
    let second : b - 64 + 64 ≡ b = omega arith in
    let third : c - 64 + 64 ≡ c = omega arith in rw (first, second, third) refl

utf8_len_one : (c : ℕ) → IsLetter c → utf8_len c ≡ 1
utf8_len_one c h = ground arith

three_bytes :
    (a b c : ℕ) → IsLetter a → IsLetter b → IsLetter c → (byte_len (a ∷ b ∷ c ∷ []) == 3) ≡ true
three_bytes a b c ha hb hc = rw (utf8_len_one a ha, utf8_len_one b hb, utf8_len_one c hc) refl

-- The check and the formula on capitals.
all_upper_lem :
    (a b c : ℕ)
    → (0x41 ≤ a) × (a ≤ 0x5A)
    → (0x41 ≤ b) × (b ≤ 0x5A)
    → (0x41 ≤ c) × (c ≤ 0x5A)
    → all_upper (a ∷ b ∷ c ∷ []) ≡ true
all_upper_lem a b c ha hb hc = ground arith

encode_chars_lem :
    (a b c : ℕ)
    → (0x41 ≤ a) × (a ≤ 0x5A)
    → (0x41 ≤ b) × (b ≤ 0x5A)
    → (0x41 ≤ c) × (c ≤ 0x5A)
    → encode_chars (a ∷ b ∷ c ∷ []) ≡ some (some ((a - 64) * 1024 + (b - 64) * 32 + (c - 64)))
unfolding encode_chars
encode_chars_lem a b c ha hb hc =
    rw
      (
        in_range_lem (a - 64) (omega arith, omega arith),
        in_range_lem (b - 64) (omega arith, omega arith),
        in_range_lem (c - 64) (omega arith, omega arith),
      )
      refl

module _ (u : Uppercase) where
  upper_letter : (c : ℕ) → IsLetter c → u.to_uppercase c ≡ capital c ∷ []
  upper_letter c (inl (low, high)) =
      let big : leb 0x61 c ≡ false = ground arith in rw big (u.upper_stays c low high)
  upper_letter c (inr (low, high)) =
      let small : leb 0x61 c ≡ true = ground arith in rw small (u.lower_changes c low high)

  upper-letters :
      (a b c : ℕ)
      → IsLetter a
      → IsLetter b
      → IsLetter c
      → upper u (a ∷ b ∷ c ∷ []) ≡ capital a ∷ capital b ∷ capital c ∷ []
  upper-letters a b c ha hb hc =
      ap (λ (x : List ℕ). x ++ (u.to_uppercase b ++ (u.to_uppercase c ++ []))) (upper_letter a ha)
      ∙ ap (λ (x : List ℕ). capital a ∷ (x ++ (u.to_uppercase c ++ []))) (upper_letter b hb)
      ∙ ap (λ (x : List ℕ). capital a ∷ capital b ∷ (x ++ [])) (upper_letter c hc)

  encode_lem :
      (a b c : ℕ)
      → IsLetter a
      → IsLetter b
      → IsLetter c
      → manufacturer_to_id u (a ∷ b ∷ c ∷ []) ≡ some (some (code_of a b c))
  unfolding manufacturer_to_id
  encode_lem a b c ha hb hc =
      rw (three_bytes a b c ha hb hc, upper-letters a b c ha hb hc)
        (rw
          (all_upper_lem (capital a) (capital b) (capital c) (capital_bounds a ha)
            (capital_bounds b hb) (capital_bounds c hc))
          (encode_chars_lem (capital a) (capital b) (capital c) (capital_bounds a ha)
            (capital_bounds b hb) (capital_bounds c hc)))

  -- A code of three ASCII letters, in either case, has an identifier; with or without the mark of a soft
  -- address it is read back as the three letters in upper case, and it counts as valid.
  pub id_to_manufacturer-manufacturer_to_id :
      (a b c : ℕ) (soft : Bool)
      → IsLetter a
      → IsLetter b
      → IsLetter c
      → (id : ℕ) × (manufacturer_to_id u (a ∷ b ∷ c ∷ []) ≡ some (some id))
        × (id_to_manufacturer (set_soft_address id soft) ≡ capital a ∷ capital b ∷ capital c ∷ [])
        × (is_valid_id (set_soft_address id soft) ≡ true)
        × (is_soft_address (set_soft_address id soft) ≡ soft)
  id_to_manufacturer-manufacturer_to_id a b c soft ha hb hc =
      let (la, ua) = capital_bounds a ha in
      let (lb, ub) = capital_bounds b hb in
      let (lc, uc) = capital_bounds c hc in
      let small : code_of a b c < 2 ^ 15 = omega arith in
      let marked = set_soft_lem soft (code_of a b c) small in
      (
        code_of a b c,
        encode_lem a b c ha hb hc,
        ap id_to_manufacturer marked
            ∙ decode_lem (bit_of soft) (capital a - 64) (capital b - 64) (capital c - 64)
                (omega arith, omega arith) (omega arith, omega arith) (omega arith, omega arith)
            ∙ back (capital a) (capital b) (capital c) la lb lc,
        ap is_valid_id marked ∙ valid_lem (bit_of soft) (code_of a b c) (omega arith) (omega arith),
        ap is_soft_address marked ∙ is_soft_lem soft (code_of a b c) small,
      )

abbrev pub AreCapitals : List ℕ → Type 0
AreCapitals cs = All (λ c. (0x41 ≤ c) × (c ≤ 0x5A)) cs

all_upper_sound : (cs : List ℕ) → all_upper cs ≡ true → AreCapitals cs
all_upper_sound [] h = tt
all_upper_sound (c ∷ cs) h = ground (arith, all_upper_sound cs)

all_upper_complete : (cs : List ℕ) → AreCapitals cs → all_upper cs ≡ true
all_upper_complete [] h = refl
all_upper_complete (c ∷ cs) h = ground (arith, all_upper_complete cs)

encode_chars-short : (cs : List ℕ) → length cs ≤ 2 → encode_chars cs ≡ none
unfolding encode_chars
encode_chars-short [] h = refl
encode_chars-short (a ∷ []) h = refl
encode_chars-short (a ∷ b ∷ []) h = refl
encode_chars-short (a ∷ b ∷ c ∷ cs) h = absurd (omega arith)

encode_chars-panic : (cs : List ℕ) → encode_chars cs ≡ none → length cs ≤ 2
unfolding encode_chars
encode_chars-panic [] h = omega arith
encode_chars-panic (a ∷ []) h = omega arith
encode_chars-panic (a ∷ b ∷ []) h = omega arith
encode_chars-panic (a ∷ b ∷ c ∷ cs) h = ground arith

-- manufacturer_to_id panics exactly on the strings of three bytes whose upper case is at most two characters,
-- all of them capitals, such as the ligature U+FB01: it reads a third character.
pub manufacturer_to_id-none_iff :
    (u : Uppercase) (manufacturer : List ℕ)
    → (manufacturer_to_id u manufacturer ≡ none) ↔ (
        (byte_len manufacturer ≡ 3)
        × AreCapitals (upper u manufacturer)
        × (length (upper u manufacturer) ≤ 2))
unfolding manufacturer_to_id
manufacturer_to_id-none_iff u manufacturer = (forth, back)
  where
    forth :
        manufacturer_to_id u manufacturer ≡ none
        → (byte_len manufacturer ≡ 3)
          × AreCapitals (upper u manufacturer)
          × (length (upper u manufacturer) ≤ 2)
    forth h = elim (Bool-cases (byte_len manufacturer == 3)) [
      | inl three ↦ elim (Bool-cases (all_upper (upper u manufacturer))) [
        | inl capitals ↦ (
          (==_iff (byte_len manufacturer) 3).0 three,
          all_upper_sound (upper u manufacturer) capitals,
          encode_chars-panic (upper u manufacturer) (rw (three, capitals) at h),
        )
        | inr other ↦ cc (rw (three, other) at h)
      ]
      | inr other ↦ cc (rw other at h)
    ]

    back :
        (byte_len manufacturer ≡ 3)
          × AreCapitals (upper u manufacturer)
          × (length (upper u manufacturer) ≤ 2)
        → manufacturer_to_id u manufacturer ≡ none
    back (three, capitals, short) =
        rw (three, all_upper_complete (upper u manufacturer) capitals)
          (encode_chars-short (upper u manufacturer) short)
