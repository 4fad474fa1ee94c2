-- ===== src/Mbus/Protocol.antt =====
-- src/mbus/mbus_protocol.rs: the state machine of the M-Bus master. Each method takes the machine
-- and returns its result with the machine it leaves, on errors too. The futures of the `async`
-- methods never wait, so each is one step.
pub mod Receive
pub mod Session
mod Tests
use mbuscrate.Prelude.{
  ℕ, zero, suc, List, [], ◌∷◌, Bool, true, false, not, ◌&&◌, ◌||◌, ◌==◌, leb, if◌then◌else◌, Result,
  ok, err,
}
use mbuscrate.Mbus.Error.{
  MBusError, serial_port_error, frame_parse_error, invalid_checksum, nom_error, other,
}
use mbuscrate.Mbus.Frame.{
  MBusFrame, MBusFrameType, ack, short, control, long, verify_frame, pack_frame,
}

pub data MBusProtocolState : Type 0 where
  idle selecting requesting receiving failed : MBusProtocolState

pub record StateMachine : Type 0 where
  pub state : MBusProtocolState
  pub fcb : Bool
  pub current_address : ℕ

pub new : StateMachine
new = record { state = idle; fcb = false; current_address = 0 }

-- What a method returns and the machine it leaves.
abbrev pub Outcome : Type 0 → Type 0
Outcome A = Result MBusError A × StateMachine

-- `match address`, whose error arms differ in their texts only.
pub select_device : ℕ → StateMachine → Outcome (Unit {0})
select_device address m =
    if leb 1 address && leb address 250
    then (ok tt, record { state = selecting; fcb = false; current_address = address })
    else if address == 253
    then (ok tt, record m { state = selecting; current_address = address })
    else (err other, record m { state = selecting })

-- The frame is built, packed and dropped: there is no transport to send it over.
pub select_device_by_secondary_address : List ℕ → StateMachine → Outcome (Unit {0})
select_device_by_secondary_address secondary_address m = (err other, m)

abbrev pub request_frame : ℕ → ℕ → MBusFrame
request_frame control_field address = record {
  frame_type = short;
  control_field = control_field;
  address = address;
  control_information = 0;
  bytes = [];
  checksum = 0;
  more_records_follow = false;
}

pub request_data : StateMachine → Outcome MBusFrame
request_data m = if m.current_address == 0 then (err other, m) else (
  ok (request_frame (if m.fcb then 0x7B else 0x5B) m.current_address),
  record m { state = requesting },
)

pub request_alarm_data : StateMachine → Outcome MBusFrame
request_alarm_data m = if m.current_address == 0 then (err other, m) else (
  ok (request_frame (if m.fcb then 0x7A else 0x5A) m.current_address),
  record m { state = requesting },
)

pub toggle_fcb : StateMachine → StateMachine
toggle_fcb m = record m { fcb = not m.fcb }

pub reset_fcb : StateMachine → StateMachine
reset_fcb m = record m { fcb = false }

pub check_multi_frame_indication : List ℕ → Bool
check_multi_frame_indication [] = false
check_multi_frame_indication (b ∷ bs) = b == 0x1F || check_multi_frame_indication bs

pub extract_payload_without_multi_frame_dif : List ℕ → List ℕ
extract_payload_without_multi_frame_dif [] = []
extract_payload_without_multi_frame_dif (b ∷ bs) =
    if b == 0x1F
    then extract_payload_without_multi_frame_dif bs
    else b ∷ extract_payload_without_multi_frame_dif bs

-- The end of `receive_data`, once the frame has been verified.
pub received_payload : List ℕ → List ℕ × Bool
received_payload bytes =
    let more_frames = check_multi_frame_indication bytes in
    ((if more_frames then extract_payload_without_multi_frame_dif bytes else bytes), more_frames)

-- `frame::verify_frame(received_frame)?` and what follows it.
pub after_verify : Result MBusError (Unit {0}) → MBusFrame → Result MBusError (List ℕ × Bool)
unfolding received_payload
after_verify (ok u) f = ok (received_payload f.bytes)
after_verify (err e) f = err e

pub receive_long : ℕ → MBusFrame → Result MBusError (List ℕ × Bool)
unfolding after_verify
receive_long current_address f =
    if f.control_field == 0x08
    then (if f.address == current_address
        then after_verify (verify_frame f) f
        else err frame_parse_error)
    else err frame_parse_error

-- `match received_frame.frame_type`.
pub receive_as : MBusFrameType → ℕ → MBusFrame → Result MBusError (List ℕ × Bool)
unfolding receive_long
receive_as long current_address f = receive_long current_address f
receive_as ack current_address f = err frame_parse_error
receive_as short current_address f = err frame_parse_error
receive_as control current_address f = err frame_parse_error

pub receive_data : MBusFrame → StateMachine → Outcome (List ℕ × Bool)
unfolding receive_as
receive_data f m = (receive_as f.frame_type m.current_address f, record m { state = receiving })

acknowledges : MBusFrameType → Result MBusError (Unit {0})
acknowledges ack = ok tt
acknowledges short = err frame_parse_error
acknowledges control = err frame_parse_error
acknowledges long = err frame_parse_error

pub receive_acknowledgment : MBusFrame → StateMachine → Outcome (Unit {0})
unfolding acknowledges
receive_acknowledgment f m = (acknowledges f.frame_type, m)

handled : MBusError → StateMachine → Outcome (Unit {0})
unfolding reset_fcb
handled frame_parse_error m = (ok tt, reset_fcb m)
handled (invalid_checksum expected calculated) m = (ok tt, m)
handled nom_error m = (ok tt, m)
handled e m = (err e, m)

pub handle_error : MBusError → StateMachine → Outcome (Unit {0})
unfolding handled
handle_error e m = handled e (record m { state = failed })

pub reset : StateMachine → StateMachine
reset m = record { state = idle; fcb = false; current_address = 0 }
