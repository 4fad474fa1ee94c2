-- ===== src/Mbus/Handlers/First.antt =====
-- RecordParser::parse_records of src/mbus/mbus_protocol.rs takes the first record only.
use mbuscrate.Prelude.{
  ℕ, zero, suc, ◌≡◌, ap, ◌∙◌, List, [], ◌∷◌, ◌++◌, replicate, append_assoc, some, ok,
}
use mbuscrate.Nom.{Nom}
use mbuscrate.Mbus.Frame.{MBusFrame}
use mbuscrate.Mbus.Handlers.{parse_records, variable_records, all_ok, first_record}
use mbuscrate.Mbus.Walk.Stream.{Slot, stream_bytes}
use mbuscrate.Payload.Record.Header.{WireRecord, IsWireRecord, wire_bytes}
use mbuscrate.Payload.Record.Data.{stored_record, parse_variable_record-wire}

module _ (nom : Nom) (w : WireRecord) (h : IsWireRecord w) (rest : List ℕ) where
  variable_records-fillers :
      (k : ℕ)
      → variable_records nom (replicate k 0x2F ++ (wire_bytes w ++ rest))
        ≡ some (stored_record w ∷ [])
  unfolding variable_records
  variable_records-fillers zero =
      rw (h.header.not_filler) (ap (first_record nom) (parse_variable_record-wire nom w h rest))
  variable_records-fillers (suc k) = variable_records-fillers k

-- Of a response whose data are a row of records, each after any number of idle fillers, the parser of the
-- frame's records returns the first record and none of the others.
pub parse_records-first :
    (nom : Nom) (frame : MBusFrame) (k : ℕ) (w : WireRecord) (ss : List Slot)
    → IsWireRecord w
    → frame.control_information ≡ 0x72
    → frame.bytes ≡ stream_bytes ((k, w) ∷ ss)
    → parse_records nom frame ≡ some (ok (stored_record w ∷ []))
unfolding parse_records
parse_records-first nom frame k w ss h variable row = rw variable (
    ap (λ (bs : List ℕ). all_ok nom (variable_records nom bs))
      (row ∙ append_assoc (replicate k 0x2F) (wire_bytes w) (stream_bytes ss))
    ∙ ap (all_ok nom) (variable_records-fillers nom w h (stream_bytes ss) k))
