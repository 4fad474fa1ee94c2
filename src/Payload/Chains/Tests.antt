-- ===== src/Payload/Chains/Tests.antt =====
-- Chains as in the unit tests of src/payload/data.rs.
use mbuscrate.Prelude.{ℕ, ◌≡◌, ◌≤◌, ◌↔◌, refl, List, [], ◌∷◌, ◌++◌, ok, length, arith}
use mbuscrate.Nom.Sample.{sample_nom}
use mbuscrate.Payload.Chains.{parse_dif_chain, parse_vif_chain, extract_tariff_from_dife_chain}
use mbuscrate.Payload.Chains.Dif.{parse_dif_chain_iff}
use mbuscrate.Payload.Chains.Vif.{coded, parse_vif_chain-block}
use mbuscrate.Payload.Record.Chain.{IsChain}

abbrev dif_chain : List ℕ
dif_chain = 0xC4 ∷ 0x95 ∷ 0x02 ∷ []

parse_dif_chain_iff_example :
    (parse_dif_chain sample_nom (dif_chain ++ (0x13 ∷ [])) ≡ ok (0x13 ∷ [], dif_chain)) ↔ (
      (dif_chain ++ (0x13 ∷ []) ≡ dif_chain ++ (0x13 ∷ []))
      × IsChain dif_chain
      × (length dif_chain ≤ 11))
parse_dif_chain_iff_example =
    parse_dif_chain_iff sample_nom (dif_chain ++ (0x13 ∷ [])) (0x13 ∷ []) dif_chain

abbrev vib : List ℕ
vib = 0xFD ∷ 0x97 ∷ 0x1D ∷ []

parse_vif_chain-block_example :
    parse_vif_chain sample_nom (vib ++ (0x42 ∷ [])) ≡ ok (0x42 ∷ [], vib)
parse_vif_chain-block_example = parse_vif_chain-block sample_nom (0x42 ∷ []) vib (
    coded 0xFD (0x97 ∷ 0x1D ∷ []) (λ e. omega arith) (λ e. omega arith) (λ e. omega arith)
      (λ e. omega arith) (λ e. omega arith) (λ e. omega arith) ((λ e. cc), ((λ e. cc), refl))
      (omega arith))

tariff_read : extract_tariff_from_dife_chain dif_chain ≡ 1
unfolding extract_tariff_from_dife_chain
tariff_read = refl
