-- ===== src/Mbus/Frame/RoundTrip.antt =====
-- What `parse_frame` reads back from what `pack_frame` wrote.
use mbuscrate.Prelude.{
  ℕ, ◌+◌, ◌-◌, ◌≤◌, ◌≡◌, sym, subst, List, [], ◌∷◌, ◌++◌, arith, Bool, true, false, ok, length,
  append_assoc, min, ◌==◌,
}
use mbuscrate.Nom.{Nom, take_while-append}
use mbuscrate.Mbus.Frame.{
  MBusFrameType, MBusFrame, ack, short, control, long, calculate_checksum, pack_frame, parse_frame,
  parse_frame_type, parse_short_frame, parse_control_or_long_frame_after_header,
}

-- The fields that a frame of each type has on the wire: the others are what the parser fills in.
abbrev pub WireShape : MBusFrameType → ℕ → ℕ → ℕ → List ℕ → Type 0
WireShape ack c a ci bs = (c ≡ 0) × (a ≡ 0) × (ci ≡ 0) × (bs ≡ [])
WireShape short c a ci bs = (ci ≡ 0) × (bs ≡ [])
WireShape control c a ci bs = bs ≡ []
WireShape long c a ci bs = (1 ≤ length bs) × (length bs ≤ 252)

abbrev pub IsWire : MBusFrame → Type 0
IsWire f =
    WireShape f.frame_type f.control_field f.address f.control_information f.bytes
    × (f.more_records_follow ≡ false)

module _ (nom : Nom) where
  abbrev frame : MBusFrameType → ℕ → ℕ → ℕ → List ℕ → ℕ → MBusFrame
  frame t c a ci bs cs = record {
    frame_type = t;
    control_field = c;
    address = a;
    control_information = ci;
    bytes = bs;
    checksum = cs;
    more_records_follow = false;
  }

  parse_pack_ack :
      (cs : ℕ) (rest : List ℕ)
      → parse_frame nom (pack_frame (frame ack 0 0 0 [] cs) ++ rest)
        ≡ ok (rest, frame ack 0 0 0 [] (calculate_checksum (frame ack 0 0 0 [] cs)))
  unfolding calculate_checksum parse_frame pack_frame parse_frame_type
  parse_pack_ack cs rest = simp nom.be_u8-cons

  parse_pack_short :
      (c a cs : ℕ) (rest : List ℕ)
      → let f = frame short c a 0 [] cs in
        parse_frame nom (pack_frame f ++ rest)
        ≡ ok (rest, frame short c a 0 [] (calculate_checksum f))
  unfolding parse_frame pack_frame parse_frame_type parse_short_frame
  parse_pack_short c a cs rest = simp nom.be_u8-cons

  parse_pack_control :
      (c a ci cs : ℕ) (rest : List ℕ)
      → let f = frame control c a ci [] cs in
        parse_frame nom (pack_frame f ++ rest)
        ≡ ok (rest, frame control c a ci [] (calculate_checksum f))
  unfolding parse_frame pack_frame parse_frame_type parse_control_or_long_frame_after_header
  parse_pack_control c a ci cs rest = simp (nom.be_u8-cons, take_while-append nom [])

  parse_pack_long :
      (c a ci cs : ℕ) (bs rest : List ℕ)
      → 1 ≤ length bs
      → length bs ≤ 252
      → let f = frame long c a ci bs cs in
        parse_frame nom (pack_frame f ++ rest)
        ≡ ok (rest, frame long c a ci bs (calculate_checksum f))
  unfolding parse_frame pack_frame parse_frame_type parse_control_or_long_frame_after_header
  parse_pack_long c a ci cs bs rest lo hi =
      rw (size, append_assoc bs (calculate_checksum (frame long c a ci bs cs) ∷ 0x16 ∷ []) rest)
        (simp (nom.be_u8-cons, same, several, payload, take_while-append nom bs))
    where
      size : min (length bs + 3) 255 ≡ length bs + 3
      size = omega arith

      same : ((length bs + 3) == (length bs + 3)) ≡ true
      same = ground arith

      several : ((length bs + 3) == 3) ≡ false
      several = ground arith

      payload : length bs + 3 - 3 ≡ length bs
      payload = omega arith

  parse_pack :
      (t : MBusFrameType) (c a ci cs : ℕ) (bs rest : List ℕ)
      → WireShape t c a ci bs
      → let f = frame t c a ci bs cs in
        parse_frame nom (pack_frame f ++ rest)
        ≡ ok (rest, record f { checksum = calculate_checksum f })
  parse_pack ack c a ci cs bs rest (hc, ha, hci, hb) = rw (hc, ha, hci, hb) (parse_pack_ack cs rest)
  parse_pack short c a ci cs bs rest (hci, hb) = rw (hci, hb) (parse_pack_short c a cs rest)
  parse_pack control c a ci cs bs rest hb = rw hb (parse_pack_control c a ci cs rest)
  parse_pack long c a ci cs bs rest (lo, hi) = parse_pack_long c a ci cs bs rest lo hi

  -- Parsing what `pack_frame` wrote gives the frame back, with the checksum computed and whatever
  -- follows left over, for every frame that has only the fields of its type and, if long, 1 to 252
  -- bytes of data.
  pub parse_frame-pack_frame :
      (f : MBusFrame) (rest : List ℕ)
      → IsWire f
      → parse_frame nom (pack_frame f ++ rest)
        ≡ ok (rest, record f { checksum = calculate_checksum f })
  parse_frame-pack_frame f rest (shape, last) =
      let back =
        parse_pack f.frame_type f.control_field f.address f.control_information f.checksum f.bytes
          rest in
      subst
        (λ (m : Bool).
          parse_frame nom (pack_frame (with_more m) ++ rest)
          ≡ ok (rest, record (with_more m) { checksum = calculate_checksum (with_more m) }))
        (sym last) (back shape)
    where
      with_more : Bool → MBusFrame
      with_more m = record f { more_records_follow = m }
