-- ===== src/Payload/Encoding/Integer.antt =====
-- decode_int of src/payload/data_encoding.rs on enough bytes.
use mbuscrate.Prelude.{ℕ, ◌+◌, ◌*◌, ◌≡◌, ap, List, ◌∷◌, ok}
use mbuscrate.Nom.{Nom}
use mbuscrate.Payload.Encoding.{decode_int, to_i32, map_i32}

module _ (nom : Nom) where
  pub decode_int_two :
      (a b : ℕ) (rest : List ℕ) → decode_int nom (a ∷ b ∷ rest) 2 ≡ ok (rest, to_i32 (a * 256 + b))
  unfolding decode_int
  decode_int_two a b rest = ap map_i32 (nom.be_u16-cons a b rest)

  pub decode_int_four :
      (a b c d : ℕ) (rest : List ℕ)
      → decode_int nom (a ∷ b ∷ c ∷ d ∷ rest) 4
        ≡ ok (rest, to_i32 (((a * 256 + b) * 256 + c) * 256 + d))
  unfolding decode_int
  decode_int_four a b c d rest = ap map_i32 (nom.be_u32-cons a b c d rest)
