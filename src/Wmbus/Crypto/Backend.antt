-- ===== src/Wmbus/Crypto/Backend.antt =====
-- The block cipher that src/wmbus/crypto.rs is given, from src/wmbus/crypto_hardware.rs.
use mbuscrate.Prelude.{
  ℕ, suc, ◌≡◌, refl, ap, ap₂, List, [], ◌∷◌, length, bit_xor, arith, All, IsByte,
}
use mbuscrate.Prelude.Bits.{bit_xor-lt, bit_xor_assoc, bit_xor_self, bit_xor-zero}

-- The trait `AesBackend`: each function takes the input and the key and gives the output.
pub record AesBackend : Type 0 where
  pub encrypt_block : List ℕ → List ℕ → List ℕ
  pub decrypt_block : List ℕ → List ℕ → List ℕ

-- `[u8; 16]`.
abbrev pub IsBlock : List ℕ → Type 0
IsBlock bytes = (length bytes ≡ 16) × All IsByte bytes

-- What is relied on: the output has the size of a block, and decryption undoes encryption.
pub record IsCipher (backend : AesBackend) : Type 0 where
  pub encrypt-IsBlock :
      (block key : List ℕ) → IsBlock block → IsBlock key → IsBlock (backend.encrypt_block block key)
  pub decrypt-encrypt :
      (block key : List ℕ)
      → IsBlock block
      → IsBlock key
      → backend.decrypt_block (backend.encrypt_block block key) key ≡ block

-- The loops `byte ^ keystream[i]`; the bytes beyond the keystream stay.
pub xor_bytes : List ℕ → List ℕ → List ℕ
xor_bytes [] ks = []
xor_bytes (b ∷ bs) [] = b ∷ bs
xor_bytes (b ∷ bs) (k ∷ ks) = bit_xor b k ∷ xor_bytes bs ks

-- `SoftwareBackend` in a build without the feature `crypto`.
pub software : AesBackend
unfolding xor_bytes
software = record { encrypt_block = xor_bytes; decrypt_block = xor_bytes }

pub length-xor_bytes : (bs ks : List ℕ) → length (xor_bytes bs ks) ≡ length bs
unfolding xor_bytes
length-xor_bytes [] ks = refl
length-xor_bytes (b ∷ bs) [] = refl
length-xor_bytes (b ∷ bs) (k ∷ ks) = ap suc (length-xor_bytes bs ks)

pub xor_bytes_twice : (bs ks : List ℕ) → xor_bytes (xor_bytes bs ks) ks ≡ bs
unfolding xor_bytes
xor_bytes_twice [] ks = refl
xor_bytes_twice (b ∷ bs) [] = refl
xor_bytes_twice (b ∷ bs) (k ∷ ks) =
    ap₂ (λ (x : ℕ) (xs : List ℕ). x ∷ xs) (cancel b k) (xor_bytes_twice bs ks)
  where
    cancel : (b k : ℕ) → bit_xor (bit_xor b k) k ≡ b
    cancel b k = rw (bit_xor_assoc b k k, bit_xor_self k) (bit_xor-zero b)

pub xor_bytes-IsByte :
    (bs ks : List ℕ) → All IsByte bs → All IsByte ks → All IsByte (xor_bytes bs ks)
unfolding xor_bytes
xor_bytes-IsByte [] ks hb hk = tt
xor_bytes-IsByte (b ∷ bs) [] hb hk = hb
xor_bytes-IsByte (b ∷ bs) (k ∷ ks) (hb, hbs) (hk, hks) =
    (bit_xor-lt 8 b k hb hk, xor_bytes-IsByte bs ks hbs hks)

pub xor_bytes-IsBlock : (b k : List ℕ) → IsBlock b → IsBlock k → IsBlock (xor_bytes b k)
xor_bytes-IsBlock b k (size, hb) (sizek, hk) =
    (omega (arith, size, length-xor_bytes b k), xor_bytes-IsByte b k hb hk)

-- The software backend is a cipher in this sense, although not a secure one.
pub software-IsCipher : IsCipher software
unfolding software
software-IsCipher = record {
  encrypt-IsBlock = λ block key hb hk. xor_bytes-IsBlock block key hb hk;
  decrypt-encrypt = λ block key hb hk. xor_bytes_twice block key;
}
