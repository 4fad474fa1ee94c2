-- ===== src/Mbus/Protocol/Session.antt =====
-- Sessions: any sequence of the machine's methods, and the requests that can come out of it.
use mbuscrate.Prelude.{
  ℕ, ◌≤◌, ◌≡◌, refl, sym, subst, List, [], ◌∷◌, ◌++◌, Bool, true, false, ◌&&◌, ◌==◌, ==_iff, leb,
  Bool-cases, if◌then◌else◌, arith, inl, inr, ◌⊎◌, ok, bit_and,
}
use mbuscrate.Nom.{Nom}
use mbuscrate.Mbus.Error.{
  MBusError, serial_port_error, frame_parse_error, unknown_vif, unknown_vife, unknown_dif,
  invalid_hex_string, invalid_manufacturer, invalid_manufacturer_id, vif_too_long, nom_error,
  device_discovery_error, invalid_checksum, premature_end_at_data, other, wmbus_error,
}
use mbuscrate.Mbus.Frame.{
  MBusFrame, short, calculate_checksum, verify_frame, pack_frame, parse_frame,
}
use mbuscrate.Mbus.Frame.Checksum.{verify_frame_iff}
use mbuscrate.Mbus.Frame.RoundTrip.{parse_frame-pack_frame}
use mbuscrate.Mbus.Protocol.{
  StateMachine, failed, new, select_device, select_device_by_secondary_address, request_data,
  request_alarm_data, request_frame, toggle_fcb, reset_fcb, receive_data, receive_acknowledgment,
  handle_error, handled, reset,
}

-- The addresses that reach one device: the primary ones, and the one of a selected device.
abbrev pub IsDevice : ℕ → Type 0
IsDevice a = ((1 ≤ a) × (a ≤ 250)) ⊎ (a ≡ 253)

abbrev pub IsValid : StateMachine → Type 0
IsValid m = (m.current_address ≡ 0) ⊎ IsDevice m.current_address

pub data Op : Type 0 where
  select_op : ℕ → Op
  select_secondary_op : List ℕ → Op
  request_op alarm_op toggle_op reset_fcb_op reset_op : Op
  receive_op ack_op : MBusFrame → Op
  error_op : MBusError → Op

unfoldable pub step : Op → StateMachine → StateMachine
step (select_op a) m = (select_device a m).1
step (select_secondary_op a) m = (select_device_by_secondary_address a m).1
step request_op m = (request_data m).1
step alarm_op m = (request_alarm_data m).1
step toggle_op m = toggle_fcb m
step reset_fcb_op m = reset_fcb m
step reset_op m = reset m
step (receive_op f) m = (receive_data f m).1
step (ack_op f) m = (receive_acknowledgment f m).1
step (error_op e) m = (handle_error e m).1

unfoldable pub run : List Op → StateMachine → StateMachine
run [] m = m
run (op ∷ ops) m = run ops (step op m)

select_device-IsValid : (a : ℕ) (m : StateMachine) → IsValid m → IsValid (select_device a m).1
unfolding select_device
select_device-IsValid a m h = elim (Bool-cases (leb 1 a && leb a 250)) [
  | inl p ↦ rw p (inr (inl (ground arith, ground arith)))
  | inr p ↦ elim (Bool-cases (a == 253)) [
    | inl q ↦ rw (p, q) (inr (inr ((==_iff a 253).0 q)))
    | inr q ↦ rw (p, q) h
  ]
]

handled-address :
    (e : MBusError) (m : StateMachine) → (handled e m).1.current_address ≡ m.current_address
unfolding handled reset_fcb
handled-address serial_port_error m = refl
handled-address frame_parse_error m = refl
handled-address (unknown_vif x) m = refl
handled-address (unknown_vife x) m = refl
handled-address (unknown_dif x) m = refl
handled-address invalid_hex_string m = refl
handled-address invalid_manufacturer m = refl
handled-address invalid_manufacturer_id m = refl
handled-address vif_too_long m = refl
handled-address nom_error m = refl
handled-address device_discovery_error m = refl
handled-address (invalid_checksum x y) m = refl
handled-address premature_end_at_data m = refl
handled-address other m = refl
handled-address wmbus_error m = refl

handle_error-address :
    (e : MBusError) (m : StateMachine) → (handle_error e m).1.current_address ≡ m.current_address
unfolding handle_error
handle_error-address e m = handled-address e (record m { state = failed })

request-address : (m : StateMachine) → (request_data m).1.current_address ≡ m.current_address
unfolding request_data
request-address m = elim (Bool-cases (m.current_address == 0)) [
  | inl p ↦ rw p refl
  | inr p ↦ rw p refl
]

alarm-address : (m : StateMachine) → (request_alarm_data m).1.current_address ≡ m.current_address
unfolding request_alarm_data
alarm-address m = elim (Bool-cases (m.current_address == 0)) [
  | inl p ↦ rw p refl
  | inr p ↦ rw p refl
]

step-IsValid : (op : Op) (m : StateMachine) → IsValid m → IsValid (step op m)
unfolding step select_device_by_secondary_address toggle_fcb reset_fcb reset receive_data
    receive_acknowledgment
step-IsValid (select_op a) m h = select_device-IsValid a m h
step-IsValid (select_secondary_op a) m h = h
step-IsValid request_op m h = rw (request-address m) h
step-IsValid alarm_op m h = rw (alarm-address m) h
step-IsValid toggle_op m h = h
step-IsValid reset_fcb_op m h = h
step-IsValid reset_op m h = inl refl
step-IsValid (receive_op f) m h = h
step-IsValid (ack_op f) m h = h
step-IsValid (error_op e) m h = rw (handle_error-address e m) h

run-IsValid_of : (ops : List Op) (m : StateMachine) → IsValid m → IsValid (run ops m)
unfolding run
run-IsValid_of [] m h = h
run-IsValid_of (op ∷ ops) m h = run-IsValid_of ops (step op m) (step-IsValid op m h)

-- In every session that starts with a new machine the current address is zero, which stands for no
-- device, or the address of one device: never the test address 254 or the broadcast address 255.
pub session-IsValid : (ops : List Op) → IsValid (run ops new)
unfolding new
session-IsValid ops = run-IsValid_of ops new (inl refl)

-- What a request says: a short frame to the current device, with bit 5 the frame count bit.
abbrev pub IsRequest : StateMachine → MBusFrame → Type 0
IsRequest m f =
    (f.frame_type ≡ short)
    × (f.address ≡ m.current_address)
    × (bit_and f.control_field 0x20 ≡ (if m.fcb then 0x20 else 0))

-- Inversion of the two requests.
request_data-ok :
    (m : StateMachine) (f : MBusFrame)
    → (request_data m).0 ≡ ok f
    → ((m.current_address == 0) ≡ false)
      × (f ≡ request_frame (if m.fcb then 0x7B else 0x5B) m.current_address)
unfolding request_data
request_data-ok m f h = elim (Bool-cases (m.current_address == 0)) [
  | inl a ↦ cc (rw a at h)
  | inr a ↦
      let sent : ok (request_frame (if m.fcb then 0x7B else 0x5B) m.current_address) ≡ ok f =
        rw a at h in
      (a, cc sent)
]

request_alarm_data-ok :
    (m : StateMachine) (f : MBusFrame)
    → (request_alarm_data m).0 ≡ ok f
    → ((m.current_address == 0) ≡ false)
      × (f ≡ request_frame (if m.fcb then 0x7A else 0x5A) m.current_address)
unfolding request_alarm_data
request_alarm_data-ok m f h = elim (Bool-cases (m.current_address == 0)) [
  | inl a ↦ cc (rw a at h)
  | inr a ↦
      let sent : ok (request_frame (if m.fcb then 0x7A else 0x5A) m.current_address) ≡ ok f =
        rw a at h in
      (a, cc sent)
]

-- A valid machine with an address has that of a device.
addressed :
    (m : StateMachine) → IsValid m → (m.current_address == 0) ≡ false → IsDevice m.current_address
addressed m (inl zero_address) h = absurd (cc (h, (==_iff m.current_address 0).1 zero_address))
addressed m (inr device) h = device

fcb_bit :
    (with_fcb without : ℕ) (fcb : Bool)
    → bit_and with_fcb 0x20 ≡ 0x20
    → bit_and without 0x20 ≡ 0
    → bit_and (if fcb then with_fcb else without) 0x20 ≡ (if fcb then 0x20 else 0)
fcb_bit x y true p q = p
fcb_bit x y false p q = q

module _ (nom : Nom) where
  request_on_wire :
      (c a : ℕ) (rest : List ℕ)
      → let sent = record (request_frame c a) {
        checksum = calculate_checksum (request_frame c a);
      } in
        (parse_frame nom (pack_frame (request_frame c a) ++ rest) ≡ ok (rest, sent))
        × (verify_frame sent ≡ ok tt)
  unfolding calculate_checksum
  request_on_wire c a rest = (
    parse_frame-pack_frame nom (request_frame c a) rest ((refl, refl), refl),
    (verify_frame_iff
          (record (request_frame c a) { checksum = calculate_checksum (request_frame c a) })).1
        refl,
  )

  -- What both requests share, for the frame that was built.
  built-IsRequest :
      (m : StateMachine) (c : ℕ) (f : MBusFrame) (rest : List ℕ)
      → f ≡ request_frame c m.current_address
      → (m.current_address == 0) ≡ false
      → IsValid m
      → bit_and c 0x20 ≡ (if m.fcb then 0x20 else 0)
      → let sent = record f { checksum = calculate_checksum f } in
        IsRequest m f
        × IsDevice f.address
        × (parse_frame nom (pack_frame f ++ rest) ≡ ok (rest, sent))
        × (verify_frame sent ≡ ok tt)
  built-IsRequest m c f rest e a valid bit =
      let (parsed, verified) = request_on_wire c m.current_address rest in
      subst
        (λ (g : MBusFrame).
          let sent = record g { checksum = calculate_checksum g } in
          IsRequest m g
          × IsDevice g.address
          × (parse_frame nom (pack_frame g ++ rest) ≡ ok (rest, sent))
          × (verify_frame sent ≡ ok tt))
        (sym e) ((refl, refl, bit), addressed m valid a, parsed, verified)

  -- Every request for data that a session builds is a short frame to one device with the frame
  -- count bit of the machine, and its packed bytes parse back into that frame, whose checksum then
  -- verifies.
  pub session_request_lem :
      (ops : List Op) (f : MBusFrame) (rest : List ℕ)
      → ((request_data (run ops new)).0 ≡ ok f) ⊎ ((request_alarm_data (run ops new)).0 ≡ ok f)
      → let sent = record f { checksum = calculate_checksum f } in
        IsRequest (run ops new) f
        × IsDevice f.address
        × (parse_frame nom (pack_frame f ++ rest) ≡ ok (rest, sent))
        × (verify_frame sent ≡ ok tt)
  session_request_lem ops f rest (inl h) =
      let (a, e) = request_data-ok (run ops new) f h in
      built-IsRequest (run ops new) (if (run ops new).fcb then 0x7B else 0x5B) f rest e a
        (session-IsValid ops) (fcb_bit 0x7B 0x5B (run ops new).fcb refl refl)
  session_request_lem ops f rest (inr h) =
      let (a, e) = request_alarm_data-ok (run ops new) f h in
      built-IsRequest (run ops new) (if (run ops new).fcb then 0x7A else 0x5A) f rest e a
        (session-IsValid ops) (fcb_bit 0x7A 0x5A (run ops new).fcb refl refl)
