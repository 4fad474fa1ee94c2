-- ===== src/Mbus/Secondary/Bytes.antt =====
-- Addresses as bytes, there and back.
use mbuscrate.Prelude.{
  from_le_bytes4, from_le_bytes2, ℕ, ◌≡◌, refl, subst, ap₂, List, ◌++◌, IsByte, IsU16, IsU32,
  length, ok,
}
use mbuscrate.Nom.{Nom, take_bytes-append}
use mbuscrate.Mbus.Secondary.{
  SecondaryAddress, to_bytes, from_bytes, parse_secondary_from_frame_data,
}

-- The fields fit their widths.
abbrev pub IsAddress : SecondaryAddress → Type 0
IsAddress a = IsU32 a.device_id × IsU16 a.manufacturer × IsByte a.version × IsByte a.device_type

from_bytes-to_bytes : (a : SecondaryAddress) → IsAddress a → from_bytes (to_bytes a) ≡ ok a
unfolding from_bytes to_bytes
from_bytes-to_bytes a (hd, hm, hv, ht) =
    ap₂
      (λ (d m : ℕ). ok (record {
        device_id = d;
        manufacturer = m;
        version = a.version;
        device_type = a.device_type;
      }))
      (from_le_bytes4 a.device_id hd) (from_le_bytes2 a.manufacturer hm)

length-to_bytes : (a : SecondaryAddress) → length (to_bytes a) ≡ 8
unfolding to_bytes
length-to_bytes a = refl

-- The bytes of an address, at the front of frame data, parse back into the address, with the rest of
-- the data left over.
pub parse_secondary-to_bytes :
    (nom : Nom) (a : SecondaryAddress) (rest : List ℕ)
    → IsAddress a
    → parse_secondary_from_frame_data nom (to_bytes a ++ rest) ≡ ok (rest, a)
unfolding parse_secondary_from_frame_data
parse_secondary-to_bytes nom a rest h = rw (taken, from_bytes-to_bytes a h) refl
  where
    taken : nom.take_bytes 8 (to_bytes a ++ rest) ≡ ok (rest, to_bytes a)
    taken =
        subst (λ (n : ℕ). nom.take_bytes n (to_bytes a ++ rest) ≡ ok (rest, to_bytes a))
          (length-to_bytes a) (take_bytes-append nom (to_bytes a) rest)
