-- ===== src/Wmbus/ModeC/TypeA.antt =====
-- A frame of type A, sent and decoded.
use mbuscrate.Prelude.{
  ℕ, zero, suc, min, ◌+◌, ◌-◌, ◌/◌, ◌%◌, ◌^◌, ◌≤◌, ◌≡◌, refl, ap, ap₂, subst, ◌∙◌, List, [], ◌∷◌,
  ◌++◌, append_assoc, true, false, ltb, length, length-append, take, drop, take-append, drop-append,
  slice, arith, ok, from_le_bytes2,
}
use mbuscrate.Wmbus.Crc.{calculate_wmbus_crc}
use mbuscrate.Wmbus.DecodeError.{type_a}
use mbuscrate.Wmbus.Frame.{add_wmbus_crc}
use mbuscrate.Wmbus.ModeC.{data_blocks, link_frame, decode_type_a, with_header, decode_mode_c}
use mbuscrate.Wmbus.ModeC.Sender.{
  Header, IsHeader, IsBlocked, concat, data_bytes, header_bytes, type_a_frame, received,
  bcd4-address_bytes, verify_block-crc,
}

-- No rounds are left out: any number of them that reaches `remaining` gives the same.
data_blocks_done : (rounds : ℕ) (rest : List ℕ) → data_blocks rounds 0 rest ≡ ([], true)
unfolding data_blocks
data_blocks_done zero rest = refl
data_blocks_done (suc rounds) rest = refl

-- One whole block at the front of the bytes.
data_blocks-block :
    (rounds remaining : ℕ) (block rest : List ℕ)
    → 1 ≤ length block
    → min remaining 16 ≡ length block
    → data_blocks (suc rounds) remaining (add_wmbus_crc block ++ rest) ≡ (
      block ++ (data_blocks rounds (remaining - length block) rest).0,
      (data_blocks rounds (remaining - length block) rest).1,
    )
unfolding data_blocks add_wmbus_crc
data_blocks-block rounds remaining block rest some_bytes blklen =
    rw (blklen, positive, whole, front, back, check) (rw (verify_block-crc block) refl)
  where
    crc : List ℕ
    crc = calculate_wmbus_crc block / 2 ^ 8 ∷ calculate_wmbus_crc block % 2 ^ 8 ∷ []

    positive : ltb 0 remaining ≡ true
    positive = ground arith

    whole : ltb (length ((block ++ crc) ++ rest)) (length block + 2) ≡ false
    whole = ground (arith, length-append (block ++ crc) rest, length-append block crc)

    front : take (length block) ((block ++ crc) ++ rest) ≡ block
    front = ap (take (length block)) (append_assoc block crc rest) ∙ take-append block (crc ++ rest)

    after : drop (length block) ((block ++ crc) ++ rest) ≡ crc ++ rest
    after = ap (drop (length block)) (append_assoc block crc rest) ∙ drop-append block (crc ++ rest)

    back : drop (length block + 2) ((block ++ crc) ++ rest) ≡ rest
    back =
        subst (λ (n : ℕ). drop n ((block ++ crc) ++ rest) ≡ rest) (length-append block crc)
          (drop-append (block ++ crc) rest)

    check : slice ((block ++ crc) ++ rest) (length block) (length block + 2) ≡ crc
    check = ap₂ take {x = length block + 2 - length block} {y = 2} (omega arith) after

-- The size of the first block is what the loop takes.
first_block :
    (block : List ℕ) (blocks : List (List ℕ))
    → IsBlocked (block ∷ blocks)
    → (1 ≤ length block)
      × (min (length (concat (block ∷ blocks))) 16 ≡ length block)
      × (length (concat (block ∷ blocks)) ≡ length block + length (concat blocks))
      × IsBlocked blocks
unfolding concat
first_block block [] (lo, hi) =
    (lo, omega (arith, length-append block []), length-append block [], tt)
first_block block (next ∷ blocks) (size, later) = (
  omega arith,
  omega (arith, length-append block (concat (next ∷ blocks))),
  length-append block (concat (next ∷ blocks)),
  later,
)

data_blocks-data_bytes :
    (blocks : List (List ℕ)) (rounds : ℕ) (rest : List ℕ)
    → IsBlocked blocks
    → length (concat blocks) ≤ rounds
    → data_blocks rounds (length (concat blocks)) (data_bytes blocks ++ rest)
      ≡ (concat blocks, true)
unfolding concat data_bytes
data_blocks-data_bytes [] rounds rest h enough = data_blocks_done rounds rest
data_blocks-data_bytes (block ∷ blocks) zero rest h enough =
    let (lo, fits, size, later) = first_block block blocks h in
    absurd (omega (arith, lo, size, enough))
data_blocks-data_bytes (block ∷ blocks) (suc rounds) rest h enough =
    let (lo, fits, size, later) = first_block block blocks h in
    let left : length (block ++ concat blocks) - length block ≡ length (concat blocks) =
      omega (arith, size) in
    ap (data_blocks (suc rounds) (length (block ++ concat blocks)))
      (append_assoc (add_wmbus_crc block) (data_bytes blocks) rest)
    ∙ data_blocks-block rounds (length (block ++ concat blocks)) block (data_bytes blocks ++ rest)
        lo fits
    ∙ rw (left, data_blocks-data_bytes blocks rounds rest later (omega (arith, lo, size, enough)))
        refl

module _ (h : Header) (blocks : List (List ℕ)) (rest : List ℕ) where
  abbrev raw : List ℕ
  raw = type_a_frame h blocks ++ rest

  abbrev l : ℕ
  l = 9 + length (concat blocks)

  link_frame-received :
      IsHeader h → (body : List ℕ) → link_frame type_a raw (body, true) ≡ received type_a h body
  unfolding type_a_frame add_wmbus_crc
  link_frame-received (hm, ha) body =
      rw (from_le_bytes2 h.manufacturer_id hm, bcd4-address_bytes h.device_address ha) refl

  decode_type_a-frame :
      IsHeader h → IsBlocked blocks → decode_type_a raw ≡ ok (received type_a h (concat blocks))
  unfolding decode_type_a type_a_frame add_wmbus_crc
  decode_type_a-frame hh hb =
      rw
        (
          size,
          verify_block-crc (header_bytes l h),
          data_blocks-data_bytes blocks (length (concat blocks)) rest hb (omega arith),
        )
        (ap ok (link_frame-received hh (concat blocks)))
    where
      size : l - 9 ≡ length (concat blocks)
      size = omega arith

  -- A frame of type A, whatever follows it, decodes into its header, with the address in decimal,
  -- and its payload, and every CRC is valid. The manufacturer code is a word, the address has eight
  -- decimal digits, and the blocks are of 16 bytes, the last of 1 to 16.
  pub decode_mode_c-type_a_frame :
      IsHeader h → IsBlocked blocks → decode_mode_c raw ≡ ok (received type_a h (concat blocks))
  unfolding decode_mode_c with_header type_a_frame add_wmbus_crc
  decode_mode_c-type_a_frame hh hb = rw (some_header, long) (decode_type_a-frame hh hb)
    where
      some_header : ltb (length raw) 2 ≡ false
      some_header = ground arith

      long : ltb (length raw) 13 ≡ false
      long = ground arith
