-- ===== src/Wmbus/Rfm69Packet/Buffer.antt =====
-- Bytes pushed from the FIFO and the packets taken out again.
use mbuscrate.Prelude.{
  ℕ, zero, suc, ◌+◌, ◌%◌, ◌≤◌, ◌≡◌, refl, sym, ap, ap₂, ◌∙◌, List, [], ◌∷◌, ◌++◌, false, ◌==◌, ltb,
  length, length-append, arith, none, some, pos, All, IsByte, append_assoc, append-nil, take-append,
  drop-append, map, ok, Result,
}
use mbuscrate.Util.BitRev.{rev8}
use mbuscrate.Util.BitRev.Laws.{rev8-rev8}
use mbuscrate.Wmbus.ModeC.Sender.{Header, IsBlocked, concat, type_a_frame, type_b_frame}
use mbuscrate.Wmbus.Rfm69Packet.{
  PacketBuffer, PacketError, push_byte, with_size, size_known, determine_packet_size, packet_size,
  extract, extract_packet, count, wmbus_packet_len,
}
use mbuscrate.Wmbus.Rfm69Packet.Size.{
  left_out, packet_size-type_a_frame, packet_size-type_b_frame, length-type_a_frame,
  length-type_b_frame, type_a_len,
}

-- The bytes of the FIFO, pushed one after the other.
unfoldable pub push_bytes : List ℕ → PacketBuffer → PacketBuffer
push_bytes [] b = b
push_bytes (raw ∷ raws) b = push_bytes raws (push_byte raw b)

-- `determine_packet_size`, then `extract_packet`.
unfoldable pub receive : PacketBuffer → Result PacketError (List ℕ) × PacketBuffer
receive b = extract_packet (determine_packet_size b).1

push_bytes_lem :
    (raws : List ℕ) (b : PacketBuffer)
    → push_bytes raws b ≡ record b { queue = b.queue ++ map rev8 raws }
unfolding push_bytes push_byte
push_bytes_lem [] b = ap (λ (q : List ℕ). record b { queue = q }) (sym (append-nil b.queue))
push_bytes_lem (raw ∷ raws) b =
    push_bytes_lem raws (push_byte raw b)
    ∙ ap (λ (q : List ℕ). record b { queue = q })
        (append_assoc b.queue (rev8 raw ∷ []) (map rev8 raws))

rev8_twice : (bytes : List ℕ) → All IsByte bytes → map rev8 (map rev8 bytes) ≡ bytes
rev8_twice [] h = refl
rev8_twice (b ∷ bs) (hb, h) =
    ap₂ (λ (x : ℕ) (xs : List ℕ). x ∷ xs) (rev8-rev8 b hb) (rev8_twice bs h)

-- What a buffer is after a packet has left it, with `rest` still in it.
abbrev pub after_packet : List ℕ → PacketBuffer → PacketBuffer
after_packet rest b = record b {
  queue = rest;
  expected_size = none;
  stats = record b.stats { packets_received = count b.stats.packets_received };
}

-- A buffer without a size, in front of a header that announces `n` bytes.
sized :
    (b : PacketBuffer) (n : ℕ)
    → b.expected_size ≡ none
    → 2 ≤ n
    → n ≤ length b.queue
    → packet_size b.queue ≡ pos n
    → (determine_packet_size b).1 ≡ record b { expected_size = some n }
unfolding determine_packet_size size_known with_size
sized b zero e lo hi size = absurd (omega arith)
sized b (suc n) e lo hi size =
    let long : ltb (length b.queue) 2 ≡ false = ground arith in rw (e, long, size) refl

extracted :
    (b : PacketBuffer) (frame rest : List ℕ)
    → b.queue ≡ frame ++ rest
    → extract (some (length frame)) b ≡ (ok frame, after_packet rest b)
unfolding extract
extracted b frame rest e = rw (e, enough, take-append frame rest, drop-append frame rest) refl
  where
    enough : ltb (length (frame ++ rest)) (length frame) ≡ false
    enough = ground (arith, length-append frame rest)

-- A frame whose header announces its length.
receive_frame :
    (b : PacketBuffer) (frame rest : List ℕ)
    → b.queue ≡ []
    → b.expected_size ≡ none
    → 2 ≤ length frame
    → packet_size (frame ++ rest) ≡ pos (length frame)
    → All IsByte (frame ++ rest)
    → receive (push_bytes (map rev8 (frame ++ rest)) b) ≡ (ok frame, after_packet rest b)
unfolding receive extract_packet
receive_frame b frame rest empty e lo size bytes =
    rw (push_bytes_lem (map rev8 (frame ++ rest)) b, filled)
      (rw (sized (record b { queue = frame ++ rest }) (length frame) e lo hi size) (
        extracted (record b { queue = frame ++ rest; expected_size = some (length frame) }) frame
          rest refl))
  where
    filled : b.queue ++ map rev8 (map rev8 (frame ++ rest)) ≡ frame ++ rest
    filled = rw (empty, rev8_twice (frame ++ rest) bytes) refl

    hi : length frame ≤ length (frame ++ rest)
    hi = omega (arith, length-append frame rest)

-- A whole frame of type A, pushed into an empty buffer without a size with its bits in the order of
-- the FIFO, is announced and extracted as it was sent, and the bytes behind it stay, if the length
-- of the payload is not one more than a multiple of 16.
pub receive-type_a_frame :
    (b : PacketBuffer) (h : Header) (blocks : List (List ℕ)) (rest : List ℕ)
    → b.queue ≡ []
    → b.expected_size ≡ none
    → IsBlocked blocks
    → (length (concat blocks) % 16 == 1) ≡ false
    → All IsByte (type_a_frame h blocks ++ rest)
    → receive (push_bytes (map rev8 (type_a_frame h blocks ++ rest)) b)
      ≡ (ok (type_a_frame h blocks), after_packet rest b)
receive-type_a_frame b h blocks rest empty e hb more bytes =
    receive_frame b (type_a_frame h blocks) rest empty e
      (omega (arith, length-type_a_frame h blocks hb, type_a_len (length (concat blocks)))) size
      bytes
  where
    none_left : left_out (length (concat blocks)) ≡ 0
    none_left = rw more refl

    len : length (type_a_frame h blocks) ≡ wmbus_packet_len (9 + length (concat blocks)) false
    len = omega (arith, none_left, length-type_a_frame h blocks hb)

    size : packet_size (type_a_frame h blocks ++ rest) ≡ pos (length (type_a_frame h blocks))
    size = packet_size-type_a_frame h blocks rest ∙ ap pos (sym len)

-- The same holds of a frame of type B, whatever the length of its payload.
pub receive-type_b_frame :
    (b : PacketBuffer) (h : Header) (payload rest : List ℕ)
    → b.queue ≡ []
    → b.expected_size ≡ none
    → All IsByte (type_b_frame h payload ++ rest)
    → receive (push_bytes (map rev8 (type_b_frame h payload ++ rest)) b)
      ≡ (ok (type_b_frame h payload), after_packet rest b)
receive-type_b_frame b h payload rest empty e bytes =
    receive_frame b (type_b_frame h payload) rest empty e
      (omega (arith, length-type_b_frame h payload))
      (packet_size-type_b_frame h payload rest ∙ ap pos (sym (length-type_b_frame h payload))) bytes
