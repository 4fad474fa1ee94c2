-- ===== src/Wmbus/Block/Split.antt =====
-- What the blocks of any payload are.
use mbuscrate.Prelude.{
  ℕ, zero, suc, ◌+◌, ◌≤◌, ◌≡◌, refl, List, [], ◌∷◌, ◌++◌, Bool, true, false, ◌&&◌, ◌||◌, ◌==◌, ltb,
  Bool-cases, inl, inr, length, length-take, length-drop, take, drop, take-append-drop, append-nil,
  arith, All, ok,
}
use mbuscrate.Wmbus.Crc.{verify_crc_be, calculate_wmbus_crc, read_crc_be}
use mbuscrate.Wmbus.Block.{
  BlockInfo, block_size, block_data_size, blocks_from, whole_block, partial_block,
  calculate_block_crc, never, verify_blocks,
}

-- The raw bytes of all blocks.
unfoldable pub raw : List BlockInfo → List ℕ
raw [] = []
raw (block ∷ blocks) = block.raw_data ++ raw blocks

-- A block is marked valid exactly if it is whole and its last two bytes are the CRC of the others.
abbrev pub IsChecked : BlockInfo → Type 0
IsChecked block =
    block.crc_valid ≡ ((length block.raw_data == block_size) && verify_crc_be block.raw_data)

-- Positions count up from `n`.
abbrev pub IsNumbered : ℕ → List BlockInfo → Type 0
IsNumbered n [] = Unit
IsNumbered n (block ∷ blocks) = (block.index ≡ n) × IsNumbered (n + 1) blocks

raw-blocks_from :
    (f : ℕ → ℕ → ℕ → Bool) (rounds index : ℕ) (rest : List ℕ)
    → length rest ≤ rounds
    → raw (blocks_from f rounds index rest) ≡ rest
unfolding raw blocks_from whole_block
raw-blocks_from f zero index [] h = refl
raw-blocks_from f zero index (b ∷ bs) h = absurd (omega arith)
raw-blocks_from f (suc rounds) index [] h = refl
raw-blocks_from f (suc rounds) index (b ∷ bs) h =
    elim (Bool-cases (ltb (length (b ∷ bs)) block_size)) [
      | inl short ↦ rw short (append-nil (b ∷ bs))
      | inr whole ↦
          rw (whole, raw-blocks_from f rounds (index + 1) (drop block_size (b ∷ bs)) fewer)
            (take-append-drop block_size (b ∷ bs))
    ]
  where
    fewer : length (drop block_size (b ∷ bs)) ≤ rounds
    fewer = omega (arith, length-drop block_size (b ∷ bs), h)

blocks_from-IsNumbered :
    (f : ℕ → ℕ → ℕ → Bool) (rounds index : ℕ) (rest : List ℕ)
    → IsNumbered index (blocks_from f rounds index rest)
unfolding blocks_from whole_block
blocks_from-IsNumbered f zero index rest = tt
blocks_from-IsNumbered f (suc rounds) index [] = tt
blocks_from-IsNumbered f (suc rounds) index (b ∷ bs) =
    elim (Bool-cases (ltb (length (b ∷ bs)) block_size)) [
      | inl short ↦ rw short (refl, tt)
      | inr whole ↦
          rw whole (refl, blocks_from-IsNumbered f rounds (index + 1) (drop block_size (b ∷ bs)))
    ]

whole_block-IsChecked :
    (index : ℕ) (block_data : List ℕ)
    → length block_data ≡ block_size
    → IsChecked (whole_block never index block_data)
unfolding whole_block verify_crc_be calculate_block_crc
whole_block-IsChecked index block_data size = rw size (
    ==-swap (read_crc_be (drop block_data_size block_data))
      (calculate_wmbus_crc (take block_data_size block_data)))
  where
    ==-swap : (a b : ℕ) → (a == b || false) ≡ (b == a)
    ==-swap a b = ground arith

blocks_from-IsChecked :
    (rounds index : ℕ) (rest : List ℕ) → All IsChecked (blocks_from never rounds index rest)
unfolding blocks_from
blocks_from-IsChecked zero index rest = tt
blocks_from-IsChecked (suc rounds) index [] = tt
blocks_from-IsChecked (suc rounds) index (b ∷ bs) =
    elim (Bool-cases (ltb (length (b ∷ bs)) block_size)) [
      | inl short ↦ rw short (partial-IsChecked short, tt)
      | inr whole ↦ rw whole (
        whole_block-IsChecked index (take block_size (b ∷ bs)) (sixteen whole),
        blocks_from-IsChecked rounds (index + 1) (drop block_size (b ∷ bs)),
      )
    ]
  where
    partial-IsChecked :
        ltb (length (b ∷ bs)) block_size ≡ true → IsChecked (partial_block index (b ∷ bs))
    partial-IsChecked short = ground arith

    sixteen :
        ltb (length (b ∷ bs)) block_size ≡ false → length (take block_size (b ∷ bs)) ≡ block_size
    sixteen whole = ground (arith, length-take block_size (b ∷ bs))

-- The blocks of a payload hold its bytes, all of them and in order, are numbered from zero, and
-- each is marked valid exactly if it is whole and its last two bytes are the CRC of the others.
pub verify_blocks_lem :
    (payload : List ℕ) (encrypted : Bool)
    → (blocks : List BlockInfo) × (verify_blocks payload encrypted ≡ ok blocks)
      × (raw blocks ≡ payload)
      × IsNumbered 0 blocks
      × All IsChecked blocks
unfolding verify_blocks
verify_blocks_lem payload encrypted = (
  blocks_from never (length payload) 0 payload,
  refl,
  raw-blocks_from never (length payload) 0 payload (omega arith),
  blocks_from-IsNumbered never (length payload) 0 payload,
  blocks_from-IsChecked (length payload) 0 payload,
)
