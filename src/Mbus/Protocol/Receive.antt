-- ===== src/Mbus/Protocol/Receive.antt =====
-- What `receive_data` accepts, and the payload it hands on.
use mbuscrate.Prelude.{
  ℕ, suc, ◌+◌, ◌≡◌, refl, sym, ap, ◌∙◌, List, [], ◌∷◌, Bool, false, ◌==◌, ==_iff, ltb, Bool-cases,
  if◌then◌else◌, length, arith, inl, inr, ◌↔◌, Result, ok, err,
}
use mbuscrate.Mbus.Error.{MBusError}
use mbuscrate.Mbus.Frame.{
  MBusFrame, MBusFrameType, ack, short, control, long, calculate_checksum, verify_frame,
}
use mbuscrate.Mbus.Frame.Checksum.{verify_frame_iff}
use mbuscrate.Mbus.Protocol.{
  StateMachine, receive_data, receive_as, receive_long, after_verify, received_payload,
  check_multi_frame_indication, extract_payload_without_multi_frame_dif,
}

-- A list without any of the entries `x`, the others in their order.
unfoldable pub without : ℕ → List ℕ → List ℕ
without x [] = []
without x (b ∷ bs) = let rest = without x bs in if b == x then rest else b ∷ rest

-- How often a byte occurs.
unfoldable pub occurrences : ℕ → List ℕ → ℕ
occurrences x [] = 0
occurrences x (b ∷ bs) = let rest = occurrences x bs in if b == x then suc rest else rest

abbrev pub IsReply : ℕ → MBusFrame → Type 0
IsReply current_address f =
    (f.frame_type ≡ long)
    × (f.control_field ≡ 0x08)
    × (f.address ≡ current_address)
    × (f.checksum ≡ calculate_checksum f)

extract-without : (bs : List ℕ) → extract_payload_without_multi_frame_dif bs ≡ without 0x1F bs
unfolding without extract_payload_without_multi_frame_dif
extract-without [] = refl
extract-without (b ∷ bs) = ground (arith, extract-without bs)

extract_none_left :
    (bs : List ℕ) → occurrences 0x1F (extract_payload_without_multi_frame_dif bs) ≡ 0
unfolding occurrences extract_payload_without_multi_frame_dif
extract_none_left [] = refl
extract_none_left (b ∷ bs) = elim (Bool-cases (b == 0x1F)) [
  | inl a ↦ rw a (extract_none_left bs)
  | inr a ↦ rw a (rw a (extract_none_left bs))
]

extract_size :
    (bs : List ℕ)
    → length (extract_payload_without_multi_frame_dif bs) + occurrences 0x1F bs ≡ length bs
unfolding occurrences extract_payload_without_multi_frame_dif
extract_size [] = refl
extract_size (b ∷ bs) = elim (Bool-cases (b == 0x1F)) [
  | inl a ↦ rw a (omega (arith, extract_size bs))
  | inr a ↦ rw a (omega (arith, extract_size bs))
]

check-eq : (bs : List ℕ) → check_multi_frame_indication bs ≡ ltb 0 (occurrences 0x1F bs)
unfolding check_multi_frame_indication occurrences
check-eq [] = refl
check-eq (b ∷ bs) = ground (arith, check-eq bs)

extract_clean :
    (bs : List ℕ)
    → check_multi_frame_indication bs ≡ false
    → extract_payload_without_multi_frame_dif bs ≡ bs
unfolding check_multi_frame_indication extract_payload_without_multi_frame_dif
extract_clean [] h = refl
extract_clean (b ∷ bs) h = ground (arith, extract_clean bs)

-- The payload is the data without its bytes 0x1F, whether there are any or not.
pub received_payload-eq :
    (bs : List ℕ) → received_payload bs ≡ (without 0x1F bs, ltb 0 (occurrences 0x1F bs))
unfolding received_payload
received_payload-eq bs = elim (Bool-cases (check_multi_frame_indication bs)) [
  | inl a ↦ rw (a, sym (check-eq bs), sym (extract-without bs)) (rw a refl)
  | inr a ↦ rw (a, sym (check-eq bs), sym (extract-without bs), extract_clean bs a) (rw a refl)
]

after_verify-ok :
    (v : Result MBusError (Unit {0})) (f : MBusFrame) (r : List ℕ × Bool)
    → after_verify v f ≡ ok r
    → (v ≡ ok tt) × (r ≡ received_payload f.bytes)
unfolding after_verify
after_verify-ok (ok u) f r h = (refl, cc h)
after_verify-ok (err e) f r h = cc h

receive_long-ok :
    (a : ℕ) (f : MBusFrame) (r : List ℕ × Bool)
    → receive_long a f ≡ ok r
    → (f.control_field ≡ 0x08)
      × (f.address ≡ a)
      × (f.checksum ≡ calculate_checksum f)
      × (r ≡ received_payload f.bytes)
unfolding receive_long
receive_long-ok a f r h = elim (Bool-cases (f.control_field == 0x08)) [
  | inl c ↦ elim (Bool-cases (f.address == a)) [
    | inl b ↦
        let (v, e) = after_verify-ok (verify_frame f) f r (rw (c, b) at h) in
        ((==_iff _ _).0 c, (==_iff _ _).0 b, (verify_frame_iff f).0 v, e)
    | inr b ↦ cc (rw (c, b) at h)
  ]
  | inr c ↦ cc (rw c at h)
]

receive_as-ok :
    (t : MBusFrameType) (a : ℕ) (f : MBusFrame) (r : List ℕ × Bool)
    → receive_as t a f ≡ ok r
    → (t ≡ long) × (receive_long a f ≡ ok r)
unfolding receive_as
receive_as-ok long a f r h = (refl, h)
receive_as-ok ack a f r h = cc h
receive_as-ok short a f r h = cc h
receive_as-ok control a f r h = cc h

receive_long-reply :
    (a : ℕ) (f : MBusFrame) → IsReply a f → receive_long a f ≡ ok (received_payload f.bytes)
unfolding receive_long after_verify
receive_long-reply a f (t, c, e, k) =
    rw ((==_iff f.control_field 0x08).1 c, (==_iff f.address a).1 e, (verify_frame_iff f).1 k) refl

-- `receive_data` succeeds exactly on the frames that are a reply of the current device with a
-- valid checksum; it then returns the data without the bytes 0x1F, and whether there were any.
pub receive_data_iff :
    (f : MBusFrame) (m : StateMachine) (payload : List ℕ) (more_frames : Bool)
    → ((receive_data f m).0 ≡ ok (payload, more_frames)) ↔ (
        IsReply m.current_address f
        × (payload ≡ without 0x1F f.bytes)
        × (more_frames ≡ ltb 0 (occurrences 0x1F f.bytes)))
unfolding receive_data receive_as
receive_data_iff f m payload more_frames = (forth, back)
  where
    forth :
        receive_as f.frame_type m.current_address f ≡ ok (payload, more_frames)
        → IsReply m.current_address f
          × (payload ≡ without 0x1F f.bytes)
          × (more_frames ≡ ltb 0 (occurrences 0x1F f.bytes))
    forth h =
        let (t, g) = receive_as-ok f.frame_type m.current_address f (payload, more_frames) h in
        let (c, a, k, e) = receive_long-ok m.current_address f (payload, more_frames) g in
        let whole = e ∙ received_payload-eq f.bytes in
        ((t, c, a, k), ap (λ p. p.0) whole, ap (λ p. p.1) whole)

    back :
        IsReply m.current_address f
          × (payload ≡ without 0x1F f.bytes)
          × (more_frames ≡ ltb 0 (occurrences 0x1F f.bytes))
        → receive_as f.frame_type m.current_address f ≡ ok (payload, more_frames)
    back (reply, p, q) =
        rw (p, q)
          (ap (λ t. receive_as t m.current_address f) reply.0
            ∙ receive_long-reply m.current_address f reply
            ∙ ap ok (received_payload-eq f.bytes))

-- The payload has no byte 0x1F, and is shorter than the data by as many as that has.
pub extract_payload_lem :
    (bs : List ℕ)
    → let payload = extract_payload_without_multi_frame_dif bs in
      (occurrences 0x1F payload ≡ 0) × (length payload + occurrences 0x1F bs ≡ length bs)
extract_payload_lem bs = (extract_none_left bs, extract_size bs)
