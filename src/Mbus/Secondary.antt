-- ===== src/Mbus/Secondary.antt =====
-- src/mbus/secondary_addressing.rs: the 8-byte address of a device, wildcards, and the frames that
-- select by it. An array of 8 bytes is a list of length 8.
pub mod Bytes
pub mod Wildcard
pub mod Selection
mod Tests
use mbuscrate.Prelude.{
  to_le_bytes, from_le_bytes, ℕ, zero, suc, ◌+◌, ◌-◌, ◌*◌, ◌/◌, ◌%◌, ◌^◌, bit_or, List, [], ◌∷◌,
  ◌++◌, Bool, true, false, not, ◌&&◌, ◌||◌, ◌==◌, ltb, leb, min, if◌then◌else◌, length, get_or, set,
  take, replicate, Result, ok, err, ◌>>=◌,
}
use mbuscrate.Nom.{Nom, IResult, NomErr, error, tag}
use mbuscrate.Mbus.Error.{MBusError, frame_parse_error}
use mbuscrate.Mbus.Frame.{calculate_mbus_checksum}

pub record SecondaryAddress : Type 0 where
  pub device_id : ℕ
  pub manufacturer : ℕ
  pub version : ℕ
  pub device_type : ℕ

pub to_bytes : SecondaryAddress → List ℕ
to_bytes a =
    to_le_bytes 4 a.device_id ++ to_le_bytes 2 a.manufacturer ++ (a.version ∷ a.device_type ∷ [])

pub from_bytes : List ℕ → Result MBusError SecondaryAddress
from_bytes (b0 ∷ b1 ∷ b2 ∷ b3 ∷ b4 ∷ b5 ∷ b6 ∷ b7 ∷ rest) = ok (record {
  device_id = from_le_bytes (b0 ∷ b1 ∷ b2 ∷ b3 ∷ []);
  manufacturer = from_le_bytes (b4 ∷ b5 ∷ []);
  version = b6;
  device_type = b7;
})
from_bytes bytes = err frame_parse_error

-- The loop over the pairs of `zip`.
abbrev pub matches : List ℕ → List ℕ → Bool
matches [] bytes = true
matches (p ∷ ps) [] = true
matches (p ∷ ps) (b ∷ bs) = if not (p == 0xF) && not (p == b) then false else matches ps bs

pub matches_wildcard : SecondaryAddress → List ℕ → Bool
matches_wildcard a pattern_bytes = matches pattern_bytes (to_bytes a)

-- The loop over the positions; `set` out of range changes nothing, as the test `pos < 8` has it.
abbrev pub put_wildcards : List ℕ → List ℕ → List ℕ
put_wildcards pattern_bytes [] = pattern_bytes
put_wildcards pattern_bytes (pos ∷ positions) = put_wildcards (set pattern_bytes pos 0xF) positions

pub to_wildcard_pattern : SecondaryAddress → List ℕ → List ℕ
to_wildcard_pattern a wildcard_positions = put_wildcards (to_bytes a) wildcard_positions

module _ (nom : Nom) where
  -- `map_err` on the conversion.
  pub parse_secondary_from_frame_data : List ℕ → IResult SecondaryAddress
  parse_secondary_from_frame_data bytes = nom.take_bytes 8 bytes >>= converted
    where
      as_nom : List ℕ → Result MBusError SecondaryAddress → IResult SecondaryAddress
      as_nom remaining (ok a) = ok (remaining, a)
      as_nom remaining (err e) = err (error bytes tag)

      converted : List ℕ × List ℕ → IResult SecondaryAddress
      converted (remaining, secondary_bytes) = as_nom remaining (from_bytes secondary_bytes)

pub build_secondary_selection_frame : List ℕ → List ℕ
build_secondary_selection_frame secondary_pattern =
    let body = 0x53 ∷ 0xFD ∷ 0x52 ∷ secondary_pattern in
    (0x68 ∷ 0x0B ∷ 0x0B ∷ 0x68 ∷ body) ++ (calculate_mbus_checksum body ∷ 0x16 ∷ [])

pub data VifSearchType : Type 0 where
  fabrication_number medium identification : VifSearchType

-- `(ci, data_len)`.
abbrev pub search_fields : VifSearchType → ℕ × ℕ
search_fields fabrication_number = (0x78, 4)
search_fields medium = (0x79, 1)
search_fields identification = (0x7A, 4)

-- The pattern cut to the length, or filled up with 0xFF.
abbrev pub padded : ℕ → List ℕ → List ℕ
padded n pattern_bytes =
    if leb n (length pattern_bytes)
    then take n pattern_bytes
    else pattern_bytes ++ replicate (n - length pattern_bytes) 0xFF

pub build_vif_search_frame : VifSearchType → List ℕ → List ℕ
build_vif_search_frame search_type pattern_bytes =
    let fields = search_fields search_type in
    let body = 0x53 ∷ 0xFD ∷ fields.0 ∷ padded fields.1 pattern_bytes in
    (0x68 ∷ (3 + fields.1) ∷ (3 + fields.1) ∷ 0x68 ∷ body)
    ++ (calculate_mbus_checksum body ∷ 0x16 ∷ [])

-- The rounds of one of the two loops of `narrow_wildcard_collision`, from `nibble` on.
abbrev pub narrowed : (ℕ → ℕ) → List ℕ → ℕ → ℕ → ℕ → List (List ℕ)
narrowed f pattern_bytes collision_byte nibble zero = []
narrowed f pattern_bytes collision_byte nibble (suc n) =
    set pattern_bytes collision_byte (f nibble)
    ∷ narrowed f pattern_bytes collision_byte (nibble + 1) n

pub narrow_wildcard_collision : List ℕ → ℕ → List (List ℕ)
narrow_wildcard_collision base_pattern collision_byte =
    if ltb collision_byte 8 && get_or base_pattern collision_byte 0 == 0xFF
    then narrowed (λ high_nibble. bit_or (high_nibble * 2 ^ 4 % 2 ^ 8) 0x0F) base_pattern
        collision_byte 0 16
      ++ narrowed (λ low_nibble. bit_or 0xF0 low_nibble) base_pattern collision_byte 0 16
    else []
