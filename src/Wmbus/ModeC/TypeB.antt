-- ===== src/Wmbus/ModeC/TypeB.antt =====
-- A frame of type B with one block, sent and decoded.
use mbuscrate.Prelude.{
  get_or, ℕ, suc, ◌+◌, ◌-◌, ◌/◌, ◌%◌, ◌^◌, ◌≡◌, refl, ap, ap₂, ◌∙◌, List, [], ◌∷◌, ◌++◌, append-nil,
  true, false, ltb, leb, length, length-append, take, drop, take-append, drop-append, slice, arith,
  ok, from_le_bytes2,
}
use mbuscrate.Wmbus.Crc.{calculate_wmbus_crc}
use mbuscrate.Wmbus.DecodeError.{type_b}
use mbuscrate.Wmbus.Frame.{add_wmbus_crc}
use mbuscrate.Wmbus.ModeC.{
  verify_block, second_block, link_frame, decode_type_b, with_header, decode_mode_c,
}
use mbuscrate.Wmbus.ModeC.Sender.{
  Header, IsHeader, header_bytes, type_b_frame, received, bcd4-address_bytes, verify_block-crc,
}

-- What makes bytes decode as one block of `b` bytes.
decode_type_b-of :
    (raw payload : List ℕ) (b : ℕ)
    → get_or raw 1 0 ≡ 1 + b
    → length raw ≡ 1 + b + 2
    → verify_block (slice raw 1 (1 + b)) (slice raw (1 + b) (1 + b + 2)) ≡ true
    → slice raw 11 (1 + b) ≡ payload
    → decode_type_b raw ≡ ok (link_frame type_b raw (payload, true))
unfolding decode_type_b second_block
decode_type_b-of raw payload b l size valid body =
    rw (l, pred) (rw (l_positive, long, no_second, valid, body) (rw (append-nil payload) refl))
  where
    pred : 1 + b - 1 ≡ b
    pred = omega arith

    l_positive : ltb (1 + b) 1 ≡ false
    l_positive = ground arith

    long : ltb (length raw) (1 + b + 2) ≡ false
    long = ground (arith, size)

    no_second : leb (1 + b + 2 + 2) (length raw) ≡ false
    no_second = ground (arith, size)

module _ (h : Header) (payload : List ℕ) where
  abbrev raw : List ℕ
  raw = type_b_frame h payload

  abbrev l : ℕ
  l = 11 + length payload

  abbrev block : List ℕ
  block = header_bytes l h ++ payload

  abbrev crc : List ℕ
  crc = calculate_wmbus_crc block / 2 ^ 8 ∷ calculate_wmbus_crc block % 2 ^ 8 ∷ []

  size : length (payload ++ crc) ≡ length payload + 2
  size = length-append payload crc

  -- The block and its CRC at their places, by the length of the block.
  block_size : length block ≡ 10 + length payload
  block_size = omega arith

  block_valid :
      verify_block
        (slice raw 1 (1 + (10 + length payload)))
        (slice raw (1 + (10 + length payload)) (1 + (10 + length payload) + 2))
      ≡ true
  unfolding type_b_frame add_wmbus_crc
  block_valid = rw (front, back) (verify_block-crc block)
    where
      front : take (1 + (10 + length payload) - 1) (block ++ crc) ≡ block
      front =
          ap (λ (n : ℕ). take n (block ++ crc)) {y = length block} (omega (arith, block_size))
          ∙ take-append block crc

      back :
          take
            (1 + (10 + length payload) + 2 - (1 + (10 + length payload)))
            (drop (1 + (10 + length payload)) (0x3D ∷ (block ++ crc)))
          ≡ crc
      back =
          ap₂ take {x = 1 + (10 + length payload) + 2 - (1 + (10 + length payload))} {y = 2}
            (omega arith)
            (ap (λ (n : ℕ). drop n (0x3D ∷ (block ++ crc))) {x = 1 + (10 + length payload)}
                {y = suc (length block)} (omega (arith, block_size))
              ∙ drop-append block crc)

  payload_slice : slice raw 11 (1 + (10 + length payload)) ≡ payload
  unfolding type_b_frame add_wmbus_crc
  payload_slice = ap (λ (n : ℕ). take n (payload ++ crc)) (omega arith) ∙ take-append payload crc

  link_frame-received :
      IsHeader h → (body : List ℕ) → link_frame type_b raw (body, true) ≡ received type_b h body
  unfolding type_b_frame add_wmbus_crc
  link_frame-received (hm, ha) body =
      rw (from_le_bytes2 h.manufacturer_id hm, bcd4-address_bytes h.device_address ha) refl

  raw_size : length raw ≡ 1 + (10 + length payload) + 2
  unfolding type_b_frame add_wmbus_crc
  raw_size = omega (arith, size)

  l_field : get_or raw 1 0 ≡ 1 + (10 + length payload)
  unfolding type_b_frame add_wmbus_crc
  l_field = omega arith

  decode_type_b-frame : IsHeader h → decode_type_b raw ≡ ok (received type_b h payload)
  decode_type_b-frame hh =
      decode_type_b-of raw payload (10 + length payload) l_field raw_size block_valid payload_slice
      ∙ ap ok (link_frame-received hh payload)

  -- A frame of type B with one block decodes into its header, with the address in decimal, and its
  -- payload, and its CRC is valid. The manufacturer code is a word and the address has eight decimal
  -- digits.
  pub decode_mode_c-type_b_frame : IsHeader h → decode_mode_c raw ≡ ok (received type_b h payload)
  unfolding decode_mode_c with_header type_b_frame add_wmbus_crc
  decode_mode_c-type_b_frame hh = rw (some_header, long) (decode_type_b-frame hh)
    where
      some_header : ltb (length raw) 2 ≡ false
      some_header = ground arith

      long : ltb (length raw) 13 ≡ false
      long = ground (arith, size)
