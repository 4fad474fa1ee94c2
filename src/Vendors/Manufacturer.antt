-- ===== src/Vendors/Manufacturer.antt =====
-- src/vendors/manufacturer.rs: the codes of the manufacturers. A string is the list of its characters, and
-- `to_uppercase` of a character is the standard library's, a parameter. A panic is `none`.
pub mod Codes
mod Tests
use mbuscrate.Prelude.{
  ℕ, ◌+◌, ◌-◌, ◌*◌, ◌/◌, ◌%◌, ◌^◌, bit_and, bit_or, List, [], ◌∷◌, ◌++◌, Bool, true, false, ◌&&◌,
  ◌||◌, not, ltb, leb, ◌==◌, if◌then◌else◌, Option, none, some, ◌≡◌, ◌≤◌,
}

-- What the documentation of `char::to_uppercase` says of ASCII.
pub record Uppercase : Type 0 where
  pub to_uppercase : ℕ → List ℕ
  pub upper_stays : (c : ℕ) → 0x41 ≤ c → c ≤ 0x5A → to_uppercase c ≡ c ∷ []
  pub lower_changes : (c : ℕ) → 0x61 ≤ c → c ≤ 0x7A → to_uppercase c ≡ (c - 32) ∷ []

-- `str::len` counts the bytes of UTF-8.
abbrev pub utf8_len : ℕ → ℕ
utf8_len c = if ltb c 0x80 then 1 else if ltb c 0x800 then 2 else if ltb c 0x10000 then 3 else 4

abbrev pub byte_len : List ℕ → ℕ
byte_len [] = 0
byte_len (c ∷ cs) = utf8_len c + byte_len cs

abbrev is_upper : ℕ → Bool
is_upper c = leb 0x41 c && leb c 0x5A

abbrev all_upper : List ℕ → Bool
all_upper [] = true
all_upper (c ∷ cs) = is_upper c && all_upper cs

abbrev in_range : ℕ → Bool
in_range v = leb 1 v && leb v 26

-- The indices 0, 1 and 2 of the characters, and the formula.
pub encode_chars : List ℕ → Option (Option ℕ)
encode_chars (a ∷ b ∷ c ∷ cs) =
    let val1 = a - 64 in
    let val2 = b - 64 in
    let val3 = c - 64 in
    if not (in_range val1) || (not (in_range val2) || not (in_range val3))
    then some none
    else some (some (val1 * 1024 + val2 * 32 + val3))
encode_chars cs = none

module _ (u : Uppercase) where
  abbrev pub upper : List ℕ → List ℕ
  upper [] = []
  upper (c ∷ cs) = u.to_uppercase c ++ upper cs

  pub manufacturer_to_id : List ℕ → Option (Option ℕ)
  unfolding encode_chars
  manufacturer_to_id manufacturer =
      if not (byte_len manufacturer == 3)
      then some none
      else if not (all_upper (upper manufacturer))
      then some none
      else encode_chars (upper manufacturer)

-- "UNK" for three numbers that are not all letters.
pub id_to_manufacturer : ℕ → List ℕ
id_to_manufacturer id =
    let id_val = bit_and id 0x7FFF in
    let val3 = id_val % 32 in
    let val2 = id_val / 32 % 32 in
    let val1 = id_val / 1024 in
    if in_range val1 && (in_range val2 && in_range val3)
    then (val1 + 64) ∷ (val2 + 64) ∷ (val3 + 64) ∷ []
    else b'U' ∷ b'N' ∷ b'K' ∷ []

pub is_valid_id : ℕ → Bool
is_valid_id id = let id_val = bit_and id 0x7FFF in leb 0x0421 id_val && leb id_val 0x6B5A

pub is_soft_address : ℕ → Bool
is_soft_address id = not (bit_and id 0x8000 == 0)

pub set_soft_address : ℕ → Bool → ℕ
set_soft_address id soft = if soft then bit_or id 0x8000 else bit_and id 0x7FFF
