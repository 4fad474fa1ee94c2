-- ===== src/Mbus/Handlers/Frames.antt =====
-- FrameHandler and the request frame of src/mbus/mbus_protocol.rs, over the frame codec.
use mbuscrate.Prelude.{ℕ, ◌≡◌, sym, ap, ◌∙◌, List, [], ◌∷◌, ◌++◌, append-nil, some, none, ok}
use mbuscrate.Nom.{Nom}
use mbuscrate.Mbus.Frame.{MBusFrame, pack_frame, calculate_checksum}
use mbuscrate.Mbus.Frame.RoundTrip.{IsWire, parse_frame-pack_frame}
use mbuscrate.Mbus.Handlers.{FrameHandler, handle_parsed, parse_frame}

module _ (nom : Nom) (f : MBusFrame) (h : FrameHandler) (wire : IsWire f) where
  abbrev sealed : MBusFrame
  sealed = record f { checksum = calculate_checksum f }

  parse_frame_with :
      (rest : List ℕ)
      → parse_frame nom (pack_frame f ++ rest) h ≡ handle_parsed h (ok (rest, sealed))
  unfolding parse_frame
  parse_frame_with rest = ap (handle_parsed h) (parse_frame-pack_frame nom f rest wire)

  pub parse_frame-alone : parse_frame nom (pack_frame f) h ≡ (ok (some sealed), h)
  parse_frame-alone =
      ap (λ (bs : List ℕ). parse_frame nom bs h) (sym (append-nil (pack_frame f)))
      ∙ parse_frame_with []

  -- A frame with any byte behind it goes to the cache, and nothing is returned.
  pub parse_frame-followed :
      (b : ℕ) (bs : List ℕ)
      → parse_frame nom (pack_frame f ++ (b ∷ bs)) h
        ≡ (ok none, record { frame_cache = h.frame_cache ++ sealed ∷ [] })
  parse_frame-followed b bs = parse_frame_with (b ∷ bs)
