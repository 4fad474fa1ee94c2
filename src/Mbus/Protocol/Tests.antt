-- ===== src/Mbus/Protocol/Tests.antt =====
-- A session of the machine, and its theorems at concrete inputs.
use mbuscrate.Prelude.{◌≡◌, refl, List, [], ◌∷◌, ◌++◌, true, false, ltb, inl, ok, ◌↔◌}
use mbuscrate.Nom.Sample.{sample_nom}
use mbuscrate.Mbus.Frame.{
  MBusFrame, long, calculate_checksum, pack_frame, parse_frame, verify_frame,
}
use mbuscrate.Mbus.Protocol.{
  StateMachine, receiving, new, request_frame, select_device, request_data, toggle_fcb,
  receive_data,
}
use mbuscrate.Mbus.Protocol.Receive.{IsReply, occurrences, without, receive_data_iff}
use mbuscrate.Mbus.Protocol.Session.{
  Op, select_op, request_op, toggle_op, step, run, IsRequest, IsDevice, session_request_lem,
}

-- Device 5 selected, and one frame of it received.
abbrev session : List Op
session = select_op 5 ∷ request_op ∷ toggle_op ∷ []

abbrev request : MBusFrame
request = request_frame 0x7B 5

sends : (request_data (run session new)).0 ≡ ok request
unfolding run step new select_device request_data toggle_fcb
sends = refl

session_request_lem_example :
    IsRequest (run session new) request
    × IsDevice request.address
    × (parse_frame sample_nom (pack_frame request ++ [])
        ≡ ok ([], record request { checksum = calculate_checksum request }))
    × (verify_frame (record request { checksum = calculate_checksum request }) ≡ ok tt)
session_request_lem_example = session_request_lem sample_nom session request [] (inl sends)

abbrev reply : MBusFrame
reply = record {
  frame_type = long;
  control_field = 0x08;
  address = 5;
  control_information = 0x72;
  bytes = 1 ∷ 0x1F ∷ 2 ∷ [];
  checksum = 0xA1;
  more_records_follow = false;
}

abbrev waiting : StateMachine
waiting = record { state = receiving; fcb = false; current_address = 5 }

receive_data_iff_example : ((receive_data reply waiting).0 ≡ ok (1 ∷ 2 ∷ [], true)) ↔ (
    IsReply 5 reply
    × (1 ∷ 2 ∷ [] ≡ without 0x1F reply.bytes)
    × (true ≡ ltb 0 (occurrences 0x1F reply.bytes)))
receive_data_iff_example = receive_data_iff reply waiting (1 ∷ 2 ∷ []) true
