-- ===== src/Vendors/Manufacturer/Tests.antt =====
-- An upper case for ASCII and one ligature, and the codes over it.
use mbuscrate.Prelude.{
  ◌↔◌, length, ◌≤◌, ℕ, ◌-◌, ◌≡◌, refl, List, [], ◌∷◌, true, ◌&&◌, leb, ◌==◌, if◌then◌else◌, none,
  some, inl, inr, arith,
}
use mbuscrate.Vendors.Manufacturer.{
  Uppercase, byte_len, upper, manufacturer_to_id, id_to_manufacturer, is_valid_id, is_soft_address,
  set_soft_address,
}
use mbuscrate.Vendors.Manufacturer.Codes.{
  id_to_manufacturer-manufacturer_to_id, manufacturer_to_id-none_iff, AreCapitals,
}

abbrev some_upper : ℕ → List ℕ
some_upper c =
    if leb 0x61 c && leb c 0x7A
    then (c - 32) ∷ []
    else if c == 0xFB01
    then 0x46 ∷ 0x49 ∷ []
    else c ∷ []

some_upper-stays : (c : ℕ) → 0x41 ≤ c → c ≤ 0x5A → some_upper c ≡ c ∷ []
some_upper-stays c low high = ground arith

some_upper-lower : (c : ℕ) → 0x61 ≤ c → c ≤ 0x7A → some_upper c ≡ (c - 32) ∷ []
some_upper-lower c low high = ground arith

abbrev sample_upper : Uppercase
sample_upper = record {
  to_uppercase = some_upper;
  upper_stays = some_upper-stays;
  lower_changes = some_upper-lower;
}

-- The letters "Kam".
id_to_manufacturer-manufacturer_to_id_example :
    (id : ℕ) × (manufacturer_to_id sample_upper (b'K' ∷ b'a' ∷ b'm' ∷ []) ≡ some (some id))
    × (id_to_manufacturer (set_soft_address id true) ≡ b'K' ∷ b'A' ∷ b'M' ∷ [])
    × (is_valid_id (set_soft_address id true) ≡ true)
    × (is_soft_address (set_soft_address id true) ≡ true)
id_to_manufacturer-manufacturer_to_id_example =
    id_to_manufacturer-manufacturer_to_id sample_upper b'K' b'a' b'm' true
      (inl (omega arith, omega arith)) (inr (omega arith, omega arith))
      (inr (omega arith, omega arith))

manufacturer_to_id-none_iff_example : (manufacturer_to_id sample_upper (0xFB01 ∷ []) ≡ none) ↔ (
    (byte_len (0xFB01 ∷ []) ≡ 3)
    × AreCapitals (upper sample_upper (0xFB01 ∷ []))
    × (length (upper sample_upper (0xFB01 ∷ [])) ≤ 2))
manufacturer_to_id-none_iff_example = manufacturer_to_id-none_iff sample_upper (0xFB01 ∷ [])

ligature_panics : manufacturer_to_id sample_upper (0xFB01 ∷ []) ≡ none
ligature_panics =
    (manufacturer_to_id-none_iff sample_upper (0xFB01 ∷ [])).1
      (refl, ((omega arith, omega arith), ((omega arith, omega arith), tt)), omega arith)
