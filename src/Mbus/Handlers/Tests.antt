-- ===== src/Mbus/Handlers/Tests.antt =====
-- The handlers at concrete frames.
use mbuscrate.Prelude.{◌≡◌, refl, [], ◌∷◌, false, some, ok}
use mbuscrate.Nom.Sample.{sample_nom}
use mbuscrate.Mbus.Frame.{MBusFrame, long}
use mbuscrate.Mbus.Handlers.{parse_records}
use mbuscrate.Mbus.Handlers.First.{parse_records-first}
use mbuscrate.Mbus.Walk.Stream.{stream_bytes}
use mbuscrate.Payload.Record.Samples.{volume, volume-IsWireRecord, named}
use mbuscrate.Payload.Record.Data.{stored_record}

abbrev response : MBusFrame
response = record {
  frame_type = long;
  control_field = 0x08;
  address = 5;
  control_information = 0x72;
  bytes = stream_bytes ((1, volume) ∷ (0, named) ∷ []);
  checksum = 0;
  more_records_follow = false;
}

-- Of two records the first is returned.
run-response : parse_records sample_nom response ≡ some (ok (stored_record volume ∷ []))
run-response =
    parse_records-first sample_nom response 1 volume ((0, named) ∷ []) volume-IsWireRecord refl refl
