-- ===== src/Wmbus/FrameDecode/Feed.antt =====
-- The decoder as its callers drive it: `add_bytes`, then `try_decode_frame`.
use mbuscrate.Prelude.{
  ℕ, ◌+◌, ◌≤◌, ◌<◌, ◌≡◌, refl, sym, ap, ◌∙◌, List, [], ◌∷◌, ◌++◌, length, length-append,
  append_assoc, append-nil, Result, ok, Option, none, some, arith, inl, All, pos,
}
use mbuscrate.Util.IoBuffer
use mbuscrate.Util.IoBuffer.{IoBuffer, default_capacity_limit}
use mbuscrate.Util.IoBuffer.Limit.{write-append}
use mbuscrate.Wmbus.DecodeError.{DecodeError}
use mbuscrate.Wmbus.Frame.{WmBusFrame}
use mbuscrate.Wmbus.ModeC.{WmBusLinkFrame}
use mbuscrate.Wmbus.ModeC.Sender.{concat}
use mbuscrate.Wmbus.Rfm69Packet.{packet_size}
use mbuscrate.Wmbus.FrameDecode.{FrameDecoder, add_bytes, written, try_decode_frame, frame_of}
use mbuscrate.Wmbus.FrameDecode.Rounds.{try_rounds-returned}
use mbuscrate.Wmbus.FrameDecode.Stream.{IsPending, IsFrame, round-waits, round-delivers}

abbrev pub Tried : Type 0
Tried = Option (Result DecodeError (Option WmBusFrame))

unfoldable pub poll : List ℕ → FrameDecoder → Tried × FrameDecoder
poll bytes d = try_decode_frame (add_bytes bytes d).1

-- One poll for each chunk, with all results.
unfoldable pub feed : List (List ℕ) → FrameDecoder → List Tried × FrameDecoder
feed [] d = ([], d)
feed (chunk ∷ chunks) d =
    let (out, d') = poll chunk d in let (outs, d'') = feed chunks d' in (out ∷ outs, d'')

-- The decoder holds `seen`, the first bytes of a frame of `n` bytes, under the default limit.
abbrev pub IsReading : ℕ → List ℕ → FrameDecoder → Type 0
IsReading n seen d =
    IsPending n d
    × (d.buffer.queue ≡ seen)
    × (d.buffer.capacity_limit ≡ some default_capacity_limit)

add_bytes-IsReading :
    (n : ℕ) (seen bytes : List ℕ) (d : FrameDecoder)
    → IsReading n seen d
    → length (seen ++ bytes) ≤ default_capacity_limit
    → IsReading n (seen ++ bytes) (add_bytes bytes d).1
unfolding add_bytes written IoBuffer.append
add_bytes-IsReading n seen bytes d (pending, queue, limit) fits =
    rw (write-append d.buffer bytes default_capacity_limit limit (omega arith) room)
      (pending, ap (λ (q : List ℕ). q ++ bytes) queue, limit)
  where
    room : length d.buffer.queue + length bytes ≤ default_capacity_limit
    room = omega (arith, ap length queue, length-append seen bytes)

poll-waits :
    (n : ℕ) (seen bytes more : List ℕ) (d : FrameDecoder)
    → IsReading n seen d
    → packet_size ((seen ++ bytes) ++ more) ≡ pos n
    → length (seen ++ bytes) < n
    → n ≤ default_capacity_limit
    → ((poll bytes d).0 ≡ some (ok none)) × IsReading n (seen ++ bytes) (poll bytes d).1
unfolding poll try_decode_frame
poll-waits n seen bytes more d reading e short fits =
    let d' = (add_bytes bytes d).1 in
    let (pending, queue, limit) = add_bytes-IsReading n seen bytes d reading (omega arith) in
    let (stops, same, still) = round-waits d' more n pending (rw queue e) (rw queue short) in
    rw (try_rounds-returned d' 1 (ok none) stops)
      (refl, (still, ap (λ b. b.queue) same ∙ queue, ap (λ b. b.capacity_limit) same ∙ limit))

-- What a decoder is after it has handed out a frame, with `rest` received beyond it.
abbrev pub IsReady : List ℕ → FrameDecoder → Type 0
IsReady rest d =
    (d.expected_size ≡ none)
    × (d.buffer.queue ≡ rest)
    × (d.buffer.capacity_limit ≡ some default_capacity_limit)

module _ (frame : List ℕ) (link : WmBusLinkFrame) (is_frame : IsFrame frame link) (rest : List ℕ)
    (fits : length (frame ++ rest) ≤ default_capacity_limit) where
  -- The result that carries the frame.
  abbrev delivered : Tried
  delivered = some (ok (some (frame_of link frame)))

  poll-delivers :
      (seen bytes : List ℕ) (d : FrameDecoder)
      → IsReading (length frame) seen d
      → seen ++ bytes ≡ frame ++ rest
      → ((poll bytes d).0 ≡ delivered) × IsReady rest (poll bytes d).1
  unfolding poll try_decode_frame
  poll-delivers seen bytes d reading e =
      let d' = (add_bytes bytes d).1 in
      let (pending, queue, limit) =
        add_bytes-IsReading (length frame) seen bytes d reading (rw e fits) in
      let (stops, left, kept, reset) =
        round-delivers frame link is_frame rest d' pending (queue ∙ e) in
      rw (try_rounds-returned d' 1 (ok (some (frame_of link frame))) stops)
        (refl, (reset, left, kept ∙ limit))

  feed-IsReading :
      (chunks : List (List ℕ)) (seen last : List ℕ) (d : FrameDecoder)
      → IsReading (length frame) seen d
      → length (seen ++ concat chunks) < length frame
      → (seen ++ concat chunks) ++ last ≡ frame ++ rest
      → All (λ (out : Tried). out ≡ some (ok none)) (feed chunks d).0
        × IsReading (length frame) (seen ++ concat chunks) (feed chunks d).1
  unfolding feed concat
  feed-IsReading [] seen last d reading short e = (tt, rw (append-nil seen) reading)
  feed-IsReading (chunk ∷ chunks) seen last d reading short e =
      let (waits, reading') =
        poll-waits (length frame) seen chunk (concat chunks ++ last) d reading announced
          (omega (arith, short, length-append (seen ++ chunk) (concat chunks), ap length regroup))
          (omega (arith, fits, length-append frame rest)) in
      let (wait, reading'') =
        feed-IsReading chunks (seen ++ chunk) last (poll chunk d).1 reading' (rw regroup short)
          (rw regroup e) in
      ((waits, wait), rw⁻¹ regroup reading'')
    where
      regroup : (seen ++ chunk) ++ concat chunks ≡ seen ++ (chunk ++ concat chunks)
      regroup = append_assoc seen chunk (concat chunks)

      announced : packet_size ((seen ++ chunk) ++ (concat chunks ++ last)) ≡ pos (length frame)
      announced =
          ap packet_size (
            sym (append_assoc (seen ++ chunk) (concat chunks) last)
            ∙ ap (λ (q : List ℕ). q ++ last) regroup
            ∙ e)
          ∙ is_frame.announced rest

  -- The chunks before the last give nothing, the last gives the frame.
  pub feed-frame :
      (chunks : List (List ℕ)) (last : List ℕ) (d : FrameDecoder)
      → IsReady [] d
      → length (concat chunks) < length frame
      → concat chunks ++ last ≡ frame ++ rest
      → All (λ (out : Tried). out ≡ some (ok none)) (feed chunks d).0
        × ((poll last (feed chunks d).1).0 ≡ delivered)
        × IsReady rest (poll last (feed chunks d).1).1
  feed-frame chunks last d (unknown, queue, limit) short e =
      let (wait, reading) = feed-IsReading chunks [] last d (inl unknown, queue, limit) short e in
      let (out, ready) = poll-delivers (concat chunks) last (feed chunks d).1 reading e in
      (wait, out, ready)
