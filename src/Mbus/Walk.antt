-- ===== src/Mbus/Walk.antt =====
-- src/mbus/mbus_protocol.rs: how the state machine walks over the records of a payload, and the handlers
-- of frames and records. The loop runs on fuel; a slice or index out of range panics.
pub mod Ends
pub mod Fixed
pub mod Stream
mod Tests
use mbuscrate.Prelude.{
  ℕ, zero, suc, ◌+◌, ◌%◌, ◌^◌, ◌≡◌, List, [], ◌∷◌, ◌++◌, Bool, true, false, leb, ltb, ◌==◌, length,
  drop, min, max, if◌then◌else◌, Result, ok, err, none, some, Option, guard, ◌>>◌, not, ◌||◌,
}
use mbuscrate.Nom.{Nom, IResult, incomplete, error, failure}
use mbuscrate.Mbus.Error.{MBusError, other, frame_parse_error}
use mbuscrate.Mbus.Frame.{MBusFrame, short, parse_frame}
use mbuscrate.Mbus.Protocol.{StateMachine, idle}
use mbuscrate.Payload.Record.{
  MBusRecord, parse_variable_record_consumed, parse_variable_record, mbus_dif_datalength_lookup,
}
use mbuscrate.Payload.Record.Fixed.{parse_fixed_record}

-- How a run ends.
pub data Ran (A : Type 0) : Type 0 where
  returned : A → Ran A
  panicked out_of_fuel : Ran A

pub calculate_record_size : MBusRecord → ℕ
calculate_record_size r =
    let size : ℕ = 1 + 1 + mbus_dif_datalength_lookup r.dif in
    let extended = if ltb 0x7F r.vif then size + 1 else size in min (max extended 3) 255

-- The value of a record is left out, and with it the numbers that are no numbers.
pub validate_and_normalize_record : MBusRecord → Result MBusError (Unit {0})
validate_and_normalize_record r =
    if r.vif == 0xFF then err other else if ltb 255 r.data_len then err other else ok tt

pub validate_all : List MBusRecord → Result MBusError (Unit {0})
unfolding validate_and_normalize_record
validate_all [] = ok tt
validate_all (r ∷ rs) = validate_and_normalize_record r >> validate_all rs

abbrev with_size : Option (Result MBusError MBusRecord) → Option (Result MBusError (MBusRecord × ℕ))
with_size none = none
with_size (some (err e)) = some (err e)
with_size (some (ok r)) = some (ok (r, calculate_record_size r))

-- What the rest of the loop makes of the remaining bytes and the records so far.
abbrev pub Next : Type 0
Next = List ℕ → List MBusRecord → Ran (List MBusRecord)

abbrev pub push : Next → List ℕ → List MBusRecord → MBusRecord × ℕ → Ran (List MBusRecord)
push next remaining records (r, consumed) =
    if leb (length remaining) consumed
    then returned (records ++ r ∷ [])
    else next (drop consumed remaining) (records ++ r ∷ [])

-- The safety check at the end of a round.
abbrev pub unless_stuck : ℕ → Next → Next
unless_stuck total next remaining records =
    if leb total (length remaining) then returned records else next remaining records

module _ (nom : Nom) where
  pub try_parse_fixed_record : List ℕ → Option (Result MBusError (MBusRecord × ℕ))
  unfolding calculate_record_size
  try_parse_fixed_record input = with_size (parse_fixed_record nom input)

  abbrev pub after_fixed :
      Next
      → List ℕ
      → List MBusRecord
      → Option (Result MBusError (MBusRecord × ℕ))
      → Ran (List MBusRecord)
  after_fixed next remaining records none = panicked
  after_fixed next remaining records (some (err e)) = next (drop 1 remaining) records
  after_fixed next remaining records (some (ok p)) = push next remaining records p

  abbrev pub after_variable :
      Next
      → List ℕ
      → List MBusRecord
      → Option (Result MBusError (MBusRecord × ℕ))
      → Ran (List MBusRecord)
  after_variable next remaining records none = panicked
  after_variable next remaining records (some (err e)) =
      after_fixed next remaining records (try_parse_fixed_record remaining)
  after_variable next remaining records (some (ok p)) = push next remaining records p

  pub walk : ℕ → ℕ → Next
  unfolding try_parse_fixed_record
  walk zero total remaining records = out_of_fuel
  walk (suc fuel) total [] records = returned records
  walk (suc fuel) total (b ∷ bs) records =
      after_variable (unless_stuck total (walk fuel total)) (b ∷ bs) records
        (parse_variable_record_consumed nom (b ∷ bs))

  abbrev pub validated : Ran (List MBusRecord) → Ran (Result MBusError (List MBusRecord))
  validated (returned records) = returned (validate_all records >> ok records)
  validated panicked = panicked
  validated out_of_fuel = out_of_fuel

  -- One round for each byte suffices, and one to see the end.
  pub process_data : List ℕ → StateMachine → Ran (Result MBusError (List MBusRecord)) × StateMachine
  unfolding walk validate_all
  process_data [] m = (returned (ok []), record m { state = idle })
  process_data (b ∷ bs) m = (
    validated (walk (suc (length (b ∷ bs))) (length (b ∷ bs)) (b ∷ bs) []),
    record m { state = idle },
  )
