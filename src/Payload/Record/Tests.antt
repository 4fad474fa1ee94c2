-- ===== src/Payload/Record/Tests.antt =====
-- Runs on concrete bytes, as in the unit tests of src/payload/record.rs.
use mbuscrate.Prelude.{
  ◌+◌, ◌≤◌, ◌++◌, replicate, length, inr, ℕ, ◌≡◌, refl, List, [], ◌∷◌, Option, some, none, Result,
  ok, err,
}
use mbuscrate.Mbus.Error.{MBusError}
use mbuscrate.Nom.Sample.{sample_nom}
use mbuscrate.Payload.Record.Header.{wire_bytes, header_bytes}
use mbuscrate.Payload.Record.Data.{stored_record, parse_variable_record_consumed-wire}
use mbuscrate.Payload.Record.Consumed.{parse_variable_record_consumed_bounds}
use mbuscrate.Payload.Record.Errors.{variable_data_outcome, all_data_outcome}
use mbuscrate.Payload.Record.Fixed.Layout.{Head}
use mbuscrate.Payload.Record.Samples.{volume, volume-IsWireRecord, named, named-IsHeader}
use mbuscrate.Payload.Record.{
  parse_variable_data_length, parse_variable_record_consumed, MBusRecord,
  mbus_dif_datalength_lookup, parse_dife, parse_vife, blank_record,
}

-- What a test looks at: the length of the data, and what was consumed.
abbrev shape : Option (Result MBusError (MBusRecord × ℕ)) → List ℕ
shape none = []
shape (some (err e)) = 0 ∷ []
shape (some (ok (r, n))) = n ∷ r.data_len ∷ r.nvife ∷ r.custom_vif

custom_vif_record_reports_exact_consumption :
    shape (
      parse_variable_record_consumed sample_nom
        (0x01 ∷ 0x7C ∷ 0x05 ∷ b'T' ∷ b'e' ∷ b's' ∷ b't' ∷ b'1' ∷ 0x42 ∷ 0xEE ∷ []))
    ≡ 9 ∷ 1 ∷ 0 ∷ b'1' ∷ b't' ∷ b's' ∷ b'e' ∷ b'T' ∷ []
unfolding parse_variable_record_consumed mbus_dif_datalength_lookup parse_dife parse_vife
    blank_record
custom_vif_record_reports_exact_consumption = refl

idle_filler_is_counted :
    shape (
      parse_variable_record_consumed sample_nom
        (0x2F ∷ 0x2F ∷ 0x8D ∷ 0x01 ∷ 0x93 ∷ 0x3A ∷ 0x02 ∷ 0x42 ∷ 0xEE ∷ []))
    ≡ 9 ∷ 2 ∷ 1 ∷ []
unfolding parse_variable_record_consumed mbus_dif_datalength_lookup parse_dife parse_vife
    blank_record
idle_filler_is_counted = refl

parse_variable_record_consumed-wire_example :
    parse_variable_record_consumed sample_nom
      (replicate 2 0x2F ++ (wire_bytes volume ++ (0x0D ∷ [])))
    ≡ some (ok (stored_record volume, 2 + length (wire_bytes volume)))
parse_variable_record_consumed-wire_example =
    parse_variable_record_consumed-wire sample_nom volume volume-IsWireRecord 2 (0x0D ∷ [])

read_back :
    parse_variable_record_consumed sample_nom (wire_bytes volume)
    ≡ some (ok (stored_record volume, 9))
read_back = parse_variable_record_consumed-wire sample_nom volume volume-IsWireRecord 0 []

parse_variable_record_consumed_bounds_example : (1 ≤ 9) × (9 ≤ length (wire_bytes volume))
parse_variable_record_consumed_bounds_example =
    parse_variable_record_consumed_bounds sample_nom (wire_bytes volume) (stored_record volume) 9
      read_back

lvar_f1 : parse_variable_data_length 0xF1 ≡ ok 1121
unfolding parse_variable_data_length
lvar_f1 = refl

variable_data_outcome_example :
    parse_variable_record_consumed sample_nom
      (replicate 0 0x2F ++ (header_bytes named ++ (0xF1 ∷ replicate 1121 0)))
    ≡ none
variable_data_outcome_example =
    variable_data_outcome sample_nom named named-IsHeader 0 0xF1 1121 (replicate 1121 0) refl
      lvar_f1

all_data_outcome_example :
    parse_variable_record_consumed sample_nom (replicate 1 0x2F ++ (0x1F ∷ replicate 257 0)) ≡ none
all_data_outcome_example = all_data_outcome sample_nom 1 0x1F (replicate 257 0) (inr refl)

abbrev water : Head
water = record {
  high = 0x24;
  low = 0x23;
  version = 1;
  medium = 0x29;
  access_number = 7;
  status = 0;
}
