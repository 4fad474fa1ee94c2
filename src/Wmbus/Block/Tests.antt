-- ===== src/Wmbus/Block/Tests.antt =====
-- The theorems on blocks at concrete inputs.
use mbuscrate.Prelude.{ℕ, ◌≡◌, refl, List, [], ◌∷◌, false, length, All, ok}
use mbuscrate.Wmbus.Block.{BlockInfo, verify_blocks, process_type_a_blocks}
use mbuscrate.Wmbus.Block.Split.{raw, IsNumbered, IsChecked, verify_blocks_lem}
use mbuscrate.Wmbus.Block.Join.{
  encode_blocks, concat, IsCrcValid, process_type_a_blocks-encode_blocks,
}

-- A whole block and two bytes of another.
abbrev payload : List ℕ
payload = 1 ∷ 2 ∷ 3 ∷ 4 ∷ 5 ∷ 6 ∷ 7 ∷ 8 ∷ 9 ∷ 10 ∷ 11 ∷ 12 ∷ 13 ∷ 14 ∷ 0xAB ∷ 0xCD ∷ 15 ∷ 16 ∷ []

abbrev chunks : List (List ℕ)
chunks =
    (1 ∷ 2 ∷ 3 ∷ 4 ∷ 5 ∷ 6 ∷ 7 ∷ 8 ∷ 9 ∷ 10 ∷ 11 ∷ 12 ∷ 13 ∷ 14 ∷ [])
    ∷ (0 ∷ 0 ∷ 0 ∷ 0 ∷ 0 ∷ 0 ∷ 0 ∷ 0 ∷ 0 ∷ 0 ∷ 0 ∷ 0 ∷ 0 ∷ 0 ∷ [])
    ∷ []

verify_blocks_lem_example :
    (blocks : List BlockInfo) × (verify_blocks payload false ≡ ok blocks)
    × (raw blocks ≡ payload)
    × IsNumbered 0 blocks
    × All IsChecked blocks
verify_blocks_lem_example = verify_blocks_lem payload false

process_type_a_blocks-encode_blocks_example :
    (process_type_a_blocks (encode_blocks chunks) false ≡ ok (concat chunks))
    × ((blocks : List BlockInfo) × (verify_blocks (encode_blocks chunks) false ≡ ok blocks)
        × All IsCrcValid blocks
        × (length blocks ≡ length chunks))
process_type_a_blocks-encode_blocks_example =
    process_type_a_blocks-encode_blocks chunks false (refl, (refl, tt))
