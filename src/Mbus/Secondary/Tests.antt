-- ===== src/Mbus/Secondary/Tests.antt =====
-- The theorems on secondary addresses at concrete inputs.
use mbuscrate.Prelude.{ℕ, ◌≡◌, refl, List, [], ◌∷◌}
use mbuscrate.Mbus.Frame.{MBusFrame, calculate_checksum}
use mbuscrate.Mbus.Secondary.{
  SecondaryAddress, padded, to_bytes, to_wildcard_pattern, narrow_wildcard_collision,
}
use mbuscrate.Mbus.Secondary.Selection.{selection}

abbrev meter : SecondaryAddress
meter = record { device_id = 0x12345678; manufacturer = 0x2C2D; version = 1; device_type = 7 }

abbrev id_bytes : List ℕ
id_bytes = 0x78 ∷ 0x56 ∷ 0x34 ∷ 0x12 ∷ 0x2D ∷ 0x2C ∷ 1 ∷ 7 ∷ []

-- The wildcard of a pattern is 0x0F, and `narrow_wildcard_collision` finds nothing to narrow there.
narrows_nothing : narrow_wildcard_collision (to_wildcard_pattern meter (6 ∷ [])) 6 ≡ []
unfolding narrow_wildcard_collision to_wildcard_pattern to_bytes
narrows_nothing = refl

abbrev sent : MBusFrame → MBusFrame
sent f = record f { checksum = calculate_checksum f }

abbrev search : MBusFrame
search = selection 0x78 (padded 4 (0x78 ∷ 0x56 ∷ []))
