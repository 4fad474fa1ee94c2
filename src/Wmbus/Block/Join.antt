-- ===== src/Wmbus/Block/Join.antt =====
-- What `verify_blocks` makes of a payload that a sender put into blocks.
use mbuscrate.Prelude.{
  ℕ, zero, suc, ◌+◌, ◌/◌, ◌%◌, ◌^◌, ◌≤◌, ◌≡◌, refl, ap, ap₂, subst, List, [], ◌∷◌, ◌++◌, Bool, true,
  false, ◌||◌, ◌==◌, ltb, length, length-append, take, drop, take-append, drop-append, arith, All,
  ok,
}
use mbuscrate.Wmbus.Crc.{calculate_wmbus_crc, read_crc_be}
use mbuscrate.Wmbus.Crc.Verify.{read_crc_be-crc}
use mbuscrate.Wmbus.Block.{
  BlockInfo, block_size, block_data_size, blocks_from, whole_block, calculate_block_crc, never,
  verify_blocks, extract_block_data, process_type_a_blocks,
}

-- A chunk of data followed by its CRC, high byte first, and the payload of several.
unfoldable pub encode_block : List ℕ → List ℕ
encode_block chunk =
    chunk ++ (calculate_wmbus_crc chunk / 2 ^ 8 ∷ calculate_wmbus_crc chunk % 2 ^ 8 ∷ [])

unfoldable pub encode_blocks : List (List ℕ) → List ℕ
encode_blocks [] = []
encode_blocks (chunk ∷ chunks) = encode_block chunk ++ encode_blocks chunks

unfoldable pub concat : List (List ℕ) → List ℕ
concat [] = []
concat (chunk ∷ chunks) = chunk ++ concat chunks

abbrev pub IsChunk : List ℕ → Type 0
IsChunk chunk = length chunk ≡ block_data_size

abbrev pub IsCrcValid : BlockInfo → Type 0
IsCrcValid block = block.crc_valid ≡ true

blocks_from-block :
    (f : ℕ → ℕ → ℕ → Bool) (rounds index : ℕ) (block rest : List ℕ)
    → length block ≡ block_size
    → blocks_from f (suc rounds) index (block ++ rest)
      ≡ whole_block f index block ∷ blocks_from f rounds (index + 1) rest
unfolding blocks_from
blocks_from-block f rounds index [] rest size = absurd (omega arith)
blocks_from-block f rounds index (b ∷ bs) rest size = rw (whole, front, back) refl
  where
    whole : ltb (length ((b ∷ bs) ++ rest)) block_size ≡ false
    whole = ground (arith, length-append (b ∷ bs) rest)

    front : take block_size ((b ∷ bs) ++ rest) ≡ b ∷ bs
    front = subst (λ (n : ℕ). take n ((b ∷ bs) ++ rest) ≡ b ∷ bs) size (take-append (b ∷ bs) rest)

    back : drop block_size ((b ∷ bs) ++ rest) ≡ rest
    back = subst (λ (n : ℕ). drop n ((b ∷ bs) ++ rest) ≡ rest) size (drop-append (b ∷ bs) rest)

whole_block-encode :
    (index : ℕ) (chunk : List ℕ)
    → IsChunk chunk
    → ((whole_block never index (encode_block chunk)).bytes ≡ chunk)
      × IsCrcValid (whole_block never index (encode_block chunk))
unfolding whole_block encode_block calculate_block_crc
whole_block-encode index chunk size = (front, rw (front, back, received) same)
  where
    tail : List ℕ
    tail = calculate_wmbus_crc chunk / 2 ^ 8 ∷ calculate_wmbus_crc chunk % 2 ^ 8 ∷ []

    front : take block_data_size (chunk ++ tail) ≡ chunk
    front = subst (λ (n : ℕ). take n (chunk ++ tail) ≡ chunk) size (take-append chunk tail)

    back : drop block_data_size (chunk ++ tail) ≡ tail
    back = subst (λ (n : ℕ). drop n (chunk ++ tail) ≡ tail) size (drop-append chunk tail)

    received : read_crc_be tail ≡ calculate_wmbus_crc chunk
    received = read_crc_be-crc chunk

    same : (calculate_wmbus_crc chunk == calculate_wmbus_crc chunk || false) ≡ true
    same = ground arith

length-encode_block : (chunk : List ℕ) → IsChunk chunk → length (encode_block chunk) ≡ block_size
unfolding encode_block
length-encode_block chunk size = omega (
  arith,
  size,
  length-append chunk (calculate_wmbus_crc chunk / 2 ^ 8 ∷ calculate_wmbus_crc chunk % 2 ^ 8 ∷ []),
)

blocks_from-nil : (f : ℕ → ℕ → ℕ → Bool) (rounds index : ℕ) → blocks_from f rounds index [] ≡ []
unfolding blocks_from
blocks_from-nil f zero index = refl
blocks_from-nil f (suc rounds) index = refl

blocks_from-encode :
    (chunks : List (List ℕ)) (rounds index : ℕ)
    → All IsChunk chunks
    → length (encode_blocks chunks) ≤ rounds
    → let blocks = blocks_from never rounds index (encode_blocks chunks) in
      (extract_block_data blocks ≡ concat chunks)
      × All IsCrcValid blocks
      × (length blocks ≡ length chunks)
unfolding encode_blocks concat extract_block_data
blocks_from-encode [] rounds index h fits = rw (blocks_from-nil never rounds index) (refl, tt, refl)
blocks_from-encode (chunk ∷ chunks) zero index h fits = absurd (
    omega (
      arith,
      fits,
      length-encode_block chunk h.0,
      length-append (encode_block chunk) (encode_blocks chunks),
    ))
blocks_from-encode (chunk ∷ chunks) (suc rounds) index h fits =
    let whole = whole_block-encode index chunk h.0 in
    let later = blocks_from-encode chunks rounds (index + 1) h.1 (
      omega (
        arith,
        fits,
        length-encode_block chunk h.0,
        length-append (encode_block chunk) (encode_blocks chunks),
      )) in
    rw
      (blocks_from-block never rounds index (encode_block chunk) (encode_blocks chunks)
        (length-encode_block chunk h.0))
      (ap₂ ◌++◌ whole.0 later.0, (whole.1, later.1), ap suc later.2)

-- A payload of chunks of 14 bytes, each followed by its CRC, gives one block for each chunk, all of
-- them valid, and `process_type_a_blocks` returns the chunks joined.
pub process_type_a_blocks-encode_blocks :
    (chunks : List (List ℕ)) (encrypted : Bool)
    → All IsChunk chunks
    → (process_type_a_blocks (encode_blocks chunks) encrypted ≡ ok (concat chunks))
      × ((blocks : List BlockInfo) × (verify_blocks (encode_blocks chunks) encrypted ≡ ok blocks)
          × All IsCrcValid blocks
          × (length blocks ≡ length chunks))
unfolding process_type_a_blocks verify_blocks
process_type_a_blocks-encode_blocks chunks encrypted h =
    let size : length (encode_blocks chunks) ≤ length (encode_blocks chunks) = omega arith in
    let (joined, valid, count) =
      blocks_from-encode chunks (length (encode_blocks chunks)) 0 h size in
    (
      ap ok joined,
      (
        blocks_from never (length (encode_blocks chunks)) 0 (encode_blocks chunks),
        refl,
        valid,
        count,
      ),
    )
