-- ===== src/Payload/Record/Fixed.antt =====
-- parse_fixed_record of src/payload/record.rs. The counters only make the value, which is left out; that they
-- can be decoded is not.
pub mod Layout
use mbuscrate.Prelude.{
  ℕ, zero, suc, ◌+◌, ◌*◌, ◌≤◌, ◌<◌, ◌≡◌, List, [], ◌∷◌, ◌++◌, Bool, true, false, leb, ltb, ◌==◌,
  length, slice, get_or, if◌then◌else◌, Result, ok, err, none, some, Option, bit_and, replicate,
  ◌>>=◌, ◌&&◌, not, guard, ◌>>◌, ℤ,
}
use mbuscrate.Nom.{Nom, IResult}
use mbuscrate.Mbus.Error.{MBusError, frame_parse_error, unknown_vif}
use mbuscrate.Payload.Encoding.{decode_bcd, decode_int}
use mbuscrate.Payload.Record.{MBusRecord, blank_record, copy_front}

-- The codes of `FIXED_MEDIUM_UNITS`, which lists all of them in order.
abbrev pub codes_from : ℕ → ℕ → List ℕ
codes_from zero code = []
codes_from (suc n) code = code ∷ codes_from n (code + 1)

abbrev pub fixed_medium_codes : List ℕ
fixed_medium_codes = codes_from 0x80 0

abbrev pub has_code : List ℕ → ℕ → Bool
has_code [] medium_unit = false
has_code (code ∷ codes) medium_unit =
    let later = has_code codes medium_unit in if code == medium_unit then true else later

-- Whether the unit is known; its text, factor and quantity are left out.
pub normalize_fixed_unit : ℕ → Result MBusError (Unit {0})
normalize_fixed_unit medium_unit =
    guard (has_code fixed_medium_codes medium_unit) (unknown_vif medium_unit)

-- The decoded number; an error becomes a frame error.
abbrev decoded : {A : Type 0} → IResult A → Result MBusError A
decoded (ok (rest, v)) = ok v
decoded (err e) = err frame_parse_error

abbrev checked : {A : Type 0} → IResult A → Result MBusError (Unit {0})
checked m = decoded m >>= λ v. ok tt

abbrev pub fixed_record : List ℕ → ℕ → List ℕ → MBusRecord
fixed_record input device_id bytes = record blank_record {
  storage_number = device_id;
  vif = get_or input 7 0;
  data_len = length input;
  bytes = bytes;
}

module _ (nom : Nom) where
  -- The counter, by the format bit of the status.
  abbrev check_counter : List ℕ → Result MBusError (Unit {0})
  check_counter input =
      if bit_and (get_or input 9 0) 0x80 == 0
      then checked (decode_bcd nom (slice input 12 16))
      else checked (decode_int nom (slice input 12 16) 4)

  -- All checks in the order of the source; the device's number.
  pub check_fixed : List ℕ → Result MBusError ℕ
  unfolding normalize_fixed_unit
  check_fixed input = do
    guard (not (ltb (length input) 16)) frame_parse_error
    device_id ← decoded (decode_bcd nom (slice input 0 4))
    let manufacturer = get_or input 4 0 * 256 + get_or input 5 0
    guard (leb 0x0421 manufacturer && leb manufacturer 0x6B5A) frame_parse_error
    checked (decode_int nom (slice input 10 12) 2)
    check_counter input
    normalize_fixed_unit (get_or input 7 0)
    normalize_fixed_unit (get_or input 7 0)
    ok device_id

  abbrev store_fixed : List ℕ → ℕ → Option (List ℕ) → Option (Result MBusError MBusRecord)
  store_fixed input device_id none = none
  store_fixed input device_id (some bytes) = some (ok (fixed_record input device_id bytes))

  abbrev build_fixed : List ℕ → Result MBusError ℕ → Option (Result MBusError MBusRecord)
  build_fixed input (err e) = some (err e)
  build_fixed input (ok device_id) =
      store_fixed input device_id (copy_front input (replicate 256 0))

  pub parse_fixed_record : List ℕ → Option (Result MBusError MBusRecord)
  unfolding check_fixed copy_front
  parse_fixed_record input = build_fixed input (check_fixed input)
