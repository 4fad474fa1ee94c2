-- ===== src/Mbus/Walk/Tests.antt =====
-- Walks over concrete payloads.
use mbuscrate.Prelude.{◌≡◌, ◌≢◌, List, [], ◌∷◌, map, ok, arith}
use mbuscrate.Nom.Sample.{sample_nom}
use mbuscrate.Mbus.Protocol.{idle, new}
use mbuscrate.Payload.Record.Samples.{volume, volume-IsWireRecord, named, named-IsWireRecord}
use mbuscrate.Payload.Record.Fixed.Layout.{Head}
use mbuscrate.Mbus.Walk.{process_data, returned, out_of_fuel}
use mbuscrate.Mbus.Walk.Ends.{process_data_ends}
use mbuscrate.Mbus.Walk.Stream.{Slot, stream_bytes, stored_slot, process_data-stream}

abbrev row : List Slot
row = (0, volume) ∷ (2, named) ∷ (0, volume) ∷ []

process_data-stream_example :
    process_data sample_nom (stream_bytes row) new
    ≡ (returned (ok (map stored_slot row)), record new { state = idle })
process_data-stream_example = process_data-stream sample_nom row new (
  (volume-IsWireRecord, (λ e. omega arith), omega arith),
  (
    (named-IsWireRecord, (λ e. omega arith), omega arith),
    ((volume-IsWireRecord, (λ e. omega arith), omega arith), tt),
  ),
)

process_data_ends_example : (process_data sample_nom (stream_bytes row) new).0 ≢ out_of_fuel
process_data_ends_example = process_data_ends sample_nom (stream_bytes row) new

abbrev water : Head
water = record {
  high = 0x24;
  low = 0x23;
  version = 1;
  medium = 0x29;
  access_number = 7;
  status = 0;
}
