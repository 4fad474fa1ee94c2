-- ===== src/Wmbus/FrameDecode/Stream.antt =====
-- Frames that arrive in pieces.
use mbuscrate.Prelude.{
  ℕ, ◌+◌, ◌≤◌, ◌<◌, ◌≡◌, refl, sym, subst, ◌∙◌, ◌⊎◌, List, [], ◌∷◌, ◌++◌, true, false, ltb, length,
  length-append, append-nil, take, take-append, drop-append, min, ok, Option, none, some, arith,
  inl, inr, le_or_lt, pos, ◌%◌, ◌^◌,
}
use mbuscrate.Util.IoBuffer
use mbuscrate.Util.IoBuffer.{IoBuffer, IoBufferError, default_capacity_limit}
use mbuscrate.Util.IoBuffer.Queue.{consume_lem}
use mbuscrate.Wmbus.ModeC.{WmBusLinkFrame, decode_mode_c}
use mbuscrate.Wmbus.Rfm69Packet.{packet_size}
use mbuscrate.Wmbus.Rfm69Packet.Size.{packet_size-two}
use mbuscrate.Wmbus.FrameDecode.{
  FrameDecoder, Round, returned, determine_frame_size, sized, process_link, process_frame,
  processed, consumed, extract_frame, after_size, round, frame_of,
}

-- The size of the frame is not yet known, or it is `n`.
abbrev pub IsPending : ℕ → FrameDecoder → Type 0
IsPending n d = (d.expected_size ≡ none) ⊎ (d.expected_size ≡ some n)

sized-two :
    (q more : List ℕ) (n : ℕ)
    → 2 ≤ length q
    → packet_size (q ++ more) ≡ pos n
    → packet_size (take (min (length q) 2) q) ≡ pos n
sized-two [] more n h e = absurd (omega arith)
sized-two (b0 ∷ []) more n h e = absurd (omega arith)
sized-two (b0 ∷ b1 ∷ q) more n h e =
    let two : min (length (b0 ∷ b1 ∷ q)) 2 ≡ 2 = omega arith in
    rw two (packet_size-two b0 b1 [] (q ++ more) ∙ e)

determine-short :
    (d : FrameDecoder) → length d.buffer.queue < 2 → determine_frame_size d ≡ (ok none, d)
unfolding determine_frame_size IoBuffer.len
determine-short d h = rw test refl
  where
    test : ltb (length d.buffer.queue) 2 ≡ true
    test = ground arith

determine-long :
    (d : FrameDecoder) (more : List ℕ) (n : ℕ)
    → 2 ≤ length d.buffer.queue
    → packet_size (d.buffer.queue ++ more) ≡ pos n
    → determine_frame_size d ≡ (ok (some n), d)
unfolding determine_frame_size IoBuffer.len IoBuffer.peek sized
determine-long d more n h e = rw (test, sized-two d.buffer.queue more n h e) refl
  where
    test : ltb (length d.buffer.queue) 2 ≡ false
    test = ground arith

-- Too few bytes: nothing changes but that the size may be known.
extract_frame-short :
    (n : ℕ) (d : FrameDecoder)
    → length d.buffer.queue < n
    → extract_frame n d ≡ (returned (ok none), d)
unfolding extract_frame IoBuffer.len
extract_frame-short n d h = rw test refl
  where
    test : ltb (length d.buffer.queue) n ≡ true
    test = ground arith

abbrev pub IsWaiting : ℕ → FrameDecoder → Round × FrameDecoder → Type 0
IsWaiting n d after =
    (after.0 ≡ returned (ok none)) × (after.1.buffer ≡ d.buffer) × IsPending n after.1

pub round-waits :
    (d : FrameDecoder) (more : List ℕ) (n : ℕ)
    → IsPending n d
    → packet_size (d.buffer.queue ++ more) ≡ pos n
    → length d.buffer.queue < n
    → IsWaiting n d (round d.expected_size d)
unfolding round after_size
round-waits d more n (inr known) e h =
    subst (λ (s : Option ℕ). IsWaiting n d (round s d)) (sym known)
      (rw (extract_frame-short n d h) (refl, refl, inr known))
round-waits d more n (inl unknown) e h = elim (le_or_lt 2 (length d.buffer.queue)) [
  | inl long ↦
      subst (λ (s : Option ℕ). IsWaiting n d (round s d)) (sym unknown)
        (rw (determine-long d more n long e) (
          rw (extract_frame-short n (record d { expected_size = some n }) h)
            (refl, refl, inr refl)))
  | inr short ↦
      subst (λ (s : Option ℕ). IsWaiting n d (round s d)) (sym unknown)
        (rw (determine-short d short) (refl, refl, inl unknown))
]

-- A byte string that announces its own length and decodes, with every CRC valid.
pub record IsFrame (frame : List ℕ) (link : WmBusLinkFrame) : Type 0 where
  pub some_header : 2 ≤ length frame
  pub announced : (rest : List ℕ) → packet_size (frame ++ rest) ≡ pos (length frame)
  pub decoded : decode_mode_c frame ≡ ok link
  pub checked : link.crc_ok ≡ true

abbrev pub IsDelivered : List ℕ → WmBusLinkFrame → List ℕ → IoBuffer → Round × FrameDecoder → Type 0
IsDelivered frame link rest b after =
    (after.0 ≡ returned (ok (some (frame_of link frame))))
    × (after.1.buffer.queue ≡ rest)
    × (after.1.buffer.capacity_limit ≡ b.capacity_limit)
    × (after.1.expected_size ≡ none)

module _ (frame : List ℕ) (link : WmBusLinkFrame) (is_frame : IsFrame frame link)
    (rest : List ℕ) where
  consumed-delivers :
      (b : IoBuffer) (d : FrameDecoder)
      → b.queue ≡ rest
      → IsDelivered frame link rest b (consumed (ok frame, b) d)
  unfolding consumed process_frame process_link processed
  consumed-delivers b d e = rw is_frame.decoded (rw is_frame.checked (refl, e, refl, refl))

  consume_exact-front :
      (b : IoBuffer)
      → b.queue ≡ frame ++ rest
      → IoBuffer.consume_exact b (length frame) ≡ (
        ok frame,
        record b { queue = rest; bytes_consumed = (b.bytes_consumed + length frame) % 2 ^ 64 },
      )
  unfolding IoBuffer.consume_exact
  consume_exact-front b e =
      rw (test, consume_lem b (length frame))
        (rw (all, e, take-append frame rest, drop-append frame rest) refl)
    where
      size : length b.queue ≡ length frame + length rest
      size = rw e (length-append frame rest)

      test : ltb (length b.queue) (length frame) ≡ false
      test = ground (arith, size)

      all : min (length frame) (length b.queue) ≡ length frame
      all = omega (arith, size)

  extract_frame-delivers :
      (d : FrameDecoder)
      → d.buffer.queue ≡ frame ++ rest
      → IsDelivered frame link rest d.buffer (extract_frame (length frame) d)
  unfolding extract_frame IoBuffer.len
  extract_frame-delivers d e =
      rw (test, consume_exact-front d.buffer e)
        (consumed-delivers
          (record d.buffer {
            queue = rest;
            bytes_consumed = (d.buffer.bytes_consumed + length frame) % 2 ^ 64;
          })
          d refl)
    where
      test : ltb (length d.buffer.queue) (length frame) ≡ false
      test = rw e (ground (arith, length-append frame rest))

  pub round-delivers :
      (d : FrameDecoder)
      → IsPending (length frame) d
      → d.buffer.queue ≡ frame ++ rest
      → IsDelivered frame link rest d.buffer (round d.expected_size d)
  unfolding round after_size
  round-delivers d (inr known) e =
      subst (λ (s : Option ℕ). IsDelivered frame link rest d.buffer (round s d)) (sym known)
        (extract_frame-delivers d e)
  round-delivers d (inl unknown) e =
      subst (λ (s : Option ℕ). IsDelivered frame link rest d.buffer (round s d)) (sym unknown)
        (rw (determine-long d [] (length frame) long announced)
          (extract_frame-delivers (record d { expected_size = some (length frame) }) e))
    where
      long : 2 ≤ length d.buffer.queue
      long = rw e (omega (arith, length-append frame rest, is_frame.some_header))

      announced : packet_size (d.buffer.queue ++ []) ≡ pos (length frame)
      announced = rw (e, append-nil (frame ++ rest)) (is_frame.announced rest)
