-- ===== src/Wmbus/FrameDecode/Rounds.antt =====
-- The loop of `try_decode_frame` ends.
use mbuscrate.Prelude.{
  ℕ, suc, ◌≡◌, refl, sym, ap, ◌∙◌, ◌⊎◌, List, [], ltb, Result, ok, err, Option, none, some,
  Bool-cases, inl, inr,
}
use mbuscrate.Util.IoBuffer
use mbuscrate.Util.IoBuffer.{IoBuffer, IoBufferError}
use mbuscrate.Wmbus.DecodeError.{DecodeError}
use mbuscrate.Wmbus.Frame.{WmBusFrame}
use mbuscrate.Wmbus.ModeC.{WmBusLinkFrame, decode_mode_c}
use mbuscrate.Wmbus.FrameDecode.{
  FrameDecoder, started, Round, returned, again, determine_frame_size, process_link, process_frame,
  is_invalid_header, processed, consumed, extract_frame, after_size, round, go_on, try_rounds,
  try_decode_frame,
}

-- A decoder that has no byte and no size.
abbrev pub IsEmpty : FrameDecoder → Type 0
IsEmpty d = (d.buffer.queue ≡ []) × (d.expected_size ≡ none)

process_link-expected_size :
    (r : Result DecodeError WmBusLinkFrame) (bytes : List ℕ) (d : FrameDecoder)
    → (process_link r bytes d).1.expected_size ≡ d.expected_size
unfolding process_link
process_link-expected_size (err e) bytes d = refl
process_link-expected_size (ok link) bytes d = elim (Bool-cases link.crc_ok) [
  | inl good ↦ rw good refl
  | inr bad ↦ rw bad refl
]

-- A round that goes on has cleared the decoder.
processed-again :
    (r : Result DecodeError WmBusFrame) (d : FrameDecoder)
    → d.expected_size ≡ none
    → (processed (r, d)).0 ≡ again
    → IsEmpty (processed (r, d)).1
unfolding processed IoBuffer.clear
processed-again (ok frame) d e h = cc h
processed-again (err error) d e h = elim (Bool-cases (is_invalid_header error)) [
  | inl invalid ↦ rw invalid (refl, e)
  | inr other ↦ cc (rw other at h)
]

consumed-again :
    (r : Result IoBufferError (List ℕ)) (b : IoBuffer) (d : FrameDecoder)
    → (consumed (r, b) d).0 ≡ again
    → IsEmpty (consumed (r, b) d).1
unfolding consumed process_frame
consumed-again (err e) b d h = cc h
consumed-again (ok bytes) b d h =
    let this = process_link (decode_mode_c bytes) bytes (started b d) in
    processed-again this.0 this.1
      (process_link-expected_size (decode_mode_c bytes) bytes (started b d)) h

extract_frame-again :
    (n : ℕ) (d : FrameDecoder) → (extract_frame n d).0 ≡ again → IsEmpty (extract_frame n d).1
unfolding extract_frame
extract_frame-again n d h = elim (Bool-cases (ltb (IoBuffer.len d.buffer) n)) [
  | inl short ↦ cc (rw short at h)
  | inr enough ↦
      let out = IoBuffer.consume_exact d.buffer n in
      rw enough (consumed-again out.0 out.1 d (rw enough at h))
]

after_size-again :
    (r : Result DecodeError (Option ℕ)) (d : FrameDecoder)
    → (after_size (r, d)).0 ≡ again
    → IsEmpty (after_size (r, d)).1
unfolding after_size
after_size-again (err e) d h = cc h
after_size-again (ok none) d h = cc h
after_size-again (ok (some n)) d h = extract_frame-again n (record d { expected_size = some n }) h

round-again :
    (size : Option ℕ) (d : FrameDecoder) → (round size d).0 ≡ again → IsEmpty (round size d).1
unfolding round
round-again (some n) d h = extract_frame-again n d h
round-again none d h = let r = determine_frame_size d in after_size-again r.0 r.1 h

-- On an empty decoder the loop asks for more data.
round-empty : (d : FrameDecoder) → IsEmpty d → round d.expected_size d ≡ (returned (ok none), d)
unfolding round after_size determine_frame_size IoBuffer.len
round-empty d (empty, e) = rw (e, empty) refl

Round-cases :
    (r : Round)
    → (r ≡ again) ⊎ ((out : Result DecodeError (Option WmBusFrame)) × (r ≡ returned out))
Round-cases again = inl refl
Round-cases (returned out) = inr (out, refl)

abbrev Tried : Type 0
Tried = Option (Result DecodeError (Option WmBusFrame)) × FrameDecoder

go_on-returned :
    (r : Round) (d : FrameDecoder) (later : Tried) (out : Result DecodeError (Option WmBusFrame))
    → r ≡ returned out
    → go_on (r, d) later ≡ (some out, d)
unfolding go_on
go_on-returned r d later out e = ap (λ (x : Round). go_on (x, d) later) e

go_on-again :
    (r : Round) (d : FrameDecoder) (later : Tried) → r ≡ again → go_on (r, d) later ≡ later
unfolding go_on
go_on-again again d later e = refl
go_on-again (returned r) d later e = cc e

-- From an empty decoder one round is enough.
try_rounds-empty :
    (d : FrameDecoder) (more : ℕ) → IsEmpty d → try_rounds (suc more) d ≡ (some (ok none), d)
unfolding try_rounds go_on
try_rounds-empty d more h = rw (round-empty d h) refl

pub try_rounds-returned :
    (d : FrameDecoder) (n : ℕ) (out : Result DecodeError (Option WmBusFrame))
    → (round d.expected_size d).0 ≡ returned out
    → try_rounds (suc n) d ≡ (some out, (round d.expected_size d).1)
unfolding try_rounds
try_rounds-returned d n out e =
    let this = round d.expected_size d in go_on-returned this.0 this.1 (try_rounds n this.1) out e

try_rounds-again :
    (d : FrameDecoder) (n : ℕ)
    → (round d.expected_size d).0 ≡ again
    → try_rounds (suc (suc n)) d ≡ (some (ok none), (round d.expected_size d).1)
unfolding try_rounds
try_rounds-again d n e =
    let this = round d.expected_size d in
    go_on-again this.0 this.1 (try_rounds (suc n) this.1) e
    ∙ try_rounds-empty this.1 n (round-again d.expected_size d e)

-- The loop of `try_decode_frame` ends within two rounds, in every state: there is a result, and
-- with any more rounds allowed it is the same, with the same decoder after it.
pub try_decode_frame_ends :
    (d : FrameDecoder) (more : ℕ)
    → (out : Result DecodeError (Option WmBusFrame)) × ((try_decode_frame d).0 ≡ some out)
      × (try_rounds (suc (suc more)) d ≡ try_decode_frame d)
unfolding try_decode_frame
try_decode_frame_ends d more = elim (Round-cases (round d.expected_size d).0) [
  | inl goes_on ↦
      let stop : (n : ℕ)
          → try_rounds (suc (suc n)) d ≡ (some (ok none), (round d.expected_size d).1) =
        λ n. try_rounds-again d n goes_on in
      (ok none, ap (λ (t : Tried). t.0) (stop 0), stop more ∙ sym (stop 0))
  | inr (out, stops) ↦
      let stop : (n : ℕ) → try_rounds (suc n) d ≡ (some out, (round d.expected_size d).1) =
        λ n. try_rounds-returned d n out stops in
      (out, ap (λ (t : Tried). t.0) (stop 1), stop (suc more) ∙ sym (stop 1))
]
