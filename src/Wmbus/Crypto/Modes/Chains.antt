-- ===== src/Wmbus/Crypto/Modes/Chains.antt =====
-- What is encrypted in a mode is decrypted in the same mode.
use mbuscrate.Prelude.{
  suc, sym, ◌*◌, length-append, ℕ, ◌%◌, ◌≡◌, refl, ap, ap₂, ◌∙◌, List, [], ◌∷◌, length, arith, All,
  IsByte,
}
use mbuscrate.Wmbus.ModeC.Sender.{IsBlocked, concat}
use mbuscrate.Wmbus.Crypto.Backend.{
  AesBackend, IsBlock, IsCipher, xor_bytes, length-xor_bytes, xor_bytes_twice, xor_bytes-IsBlock,
}
use mbuscrate.Wmbus.Crypto.Modes.{
  chunks, increment_counter, ctr_chunks, aes_ctr_process, cbc_encrypt_chunks, cbc_decrypt_chunks,
  aes_cbc_encrypt, aes_cbc_decrypt, ecb_encrypt_chunks, ecb_decrypt_chunks, aes_ecb_encrypt,
  aes_ecb_decrypt, pkcs7_unpad,
}
use mbuscrate.Wmbus.Crypto.Modes.Chunks.{
  concat-chunks, chunks-concat, chunks-IsBlocked, chunks-IsBlock, chunks_exact-blocks,
  chunks_exact-chunks, length-concat_blocks,
}

ctr_chunks_twice :
    (backend : AesBackend) (key : List ℕ) (blocks : List (List ℕ)) (counter : List ℕ)
    → ctr_chunks backend key (ctr_chunks backend key blocks counter) counter ≡ blocks
unfolding ctr_chunks
ctr_chunks_twice backend key [] counter = refl
ctr_chunks_twice backend key (b ∷ bs) counter =
    ap₂ (λ (x : List ℕ) (xs : List (List ℕ)). x ∷ xs)
      (xor_bytes_twice b (backend.encrypt_block counter key))
      (ctr_chunks_twice backend key bs (increment_counter counter))

ctr_chunks-IsBlocked :
    (backend : AesBackend) (key : List ℕ) (blocks : List (List ℕ)) (counter : List ℕ)
    → IsBlocked blocks
    → IsBlocked (ctr_chunks backend key blocks counter)
unfolding ctr_chunks
ctr_chunks-IsBlocked backend key [] counter h = tt
ctr_chunks-IsBlocked backend key (b ∷ []) counter (lo, hi) =
    let size = length-xor_bytes b (backend.encrypt_block counter key) in
    (omega (arith, lo, size), omega (arith, hi, size))
ctr_chunks-IsBlocked backend key (b ∷ next ∷ bs) counter (size, h) = (
  omega (arith, size, length-xor_bytes b (backend.encrypt_block counter key)),
  ctr_chunks-IsBlocked backend key (next ∷ bs) (increment_counter counter) h,
)

-- CTR mode undoes itself, with any block cipher.
pub aes_ctr_process_twice :
    (backend : AesBackend) (key bytes iv : List ℕ)
    → aes_ctr_process backend key (aes_ctr_process backend key bytes iv) iv ≡ bytes
unfolding aes_ctr_process
aes_ctr_process_twice backend key bytes iv =
    ap (λ (cs : List (List ℕ)). concat (ctr_chunks backend key cs iv))
      (chunks-concat (ctr_chunks backend key (chunks bytes) iv)
        (ctr_chunks-IsBlocked backend key (chunks bytes) iv (chunks-IsBlocked bytes)))
    ∙ ap concat (ctr_chunks_twice backend key (chunks bytes) iv)
    ∙ concat-chunks bytes

length-ctr_chunks :
    (backend : AesBackend) (key : List ℕ) (blocks : List (List ℕ)) (counter : List ℕ)
    → length (concat (ctr_chunks backend key blocks counter)) ≡ length (concat blocks)
unfolding ctr_chunks concat
length-ctr_chunks backend key [] counter = refl
length-ctr_chunks backend key (b ∷ bs) counter =
    let mixed = xor_bytes b (backend.encrypt_block counter key) in
    let rest = ctr_chunks backend key bs (increment_counter counter) in
    omega (
      arith,
      length-append mixed (concat rest),
      length-append b (concat bs),
      length-xor_bytes b (backend.encrypt_block counter key),
      length-ctr_chunks backend key bs (increment_counter counter),
    )

pub length-aes_ctr_process :
    (backend : AesBackend) (key bytes iv : List ℕ)
    → length (aes_ctr_process backend key bytes iv) ≡ length bytes
unfolding aes_ctr_process
length-aes_ctr_process backend key bytes iv =
    length-ctr_chunks backend key (chunks bytes) iv ∙ ap length (concat-chunks bytes)

module _ (backend : AesBackend) (cipher : IsCipher backend) (key : List ℕ) (hk : IsBlock key) where
  cbc_encrypt_chunks-IsBlock :
      (blocks : List (List ℕ)) (prev : List ℕ)
      → All IsBlock blocks
      → IsBlock prev
      → All IsBlock (cbc_encrypt_chunks backend key blocks prev)
  unfolding cbc_encrypt_chunks
  cbc_encrypt_chunks-IsBlock [] prev h hp = tt
  cbc_encrypt_chunks-IsBlock (b ∷ bs) prev (hb, h) hp =
      let encrypted =
        cipher.encrypt-IsBlock (xor_bytes b prev) key (xor_bytes-IsBlock b prev hb hp) hk in
      (
        encrypted,
        cbc_encrypt_chunks-IsBlock bs (backend.encrypt_block (xor_bytes b prev) key) h encrypted,
      )

  cbc_decrypt_chunks-encrypt :
      (blocks : List (List ℕ)) (prev : List ℕ)
      → All IsBlock blocks
      → IsBlock prev
      → cbc_decrypt_chunks backend key (cbc_encrypt_chunks backend key blocks prev) prev ≡ blocks
  unfolding cbc_encrypt_chunks cbc_decrypt_chunks
  cbc_decrypt_chunks-encrypt [] prev h hp = refl
  cbc_decrypt_chunks-encrypt (b ∷ bs) prev (hb, h) hp =
      let mixed = xor_bytes-IsBlock b prev hb hp in
      ap₂ (λ (x : List ℕ) (xs : List (List ℕ)). x ∷ xs)
        (ap (λ (x : List ℕ). xor_bytes x prev)
            (cipher.decrypt-encrypt (xor_bytes b prev) key mixed hk)
          ∙ xor_bytes_twice b prev)
        (cbc_decrypt_chunks-encrypt bs (backend.encrypt_block (xor_bytes b prev) key) h
          (cipher.encrypt-IsBlock (xor_bytes b prev) key mixed hk))

  -- What is left after CBC decryption is the padding to remove.
  pub aes_cbc_decrypt-encrypt :
      (plaintext iv : List ℕ)
      → length plaintext % 16 ≡ 0
      → All IsByte plaintext
      → IsBlock iv
      → aes_cbc_decrypt backend key (aes_cbc_encrypt backend key plaintext iv) iv
        ≡ pkcs7_unpad plaintext
  unfolding aes_cbc_decrypt aes_cbc_encrypt
  aes_cbc_decrypt-encrypt plaintext iv fill hb hi =
      let blocks = chunks-IsBlock plaintext fill hb in
      let encrypted = cbc_encrypt_chunks-IsBlock (chunks plaintext) iv blocks hi in
      rw
        (
          chunks_exact-chunks plaintext fill hb,
          chunks_exact-blocks (cbc_encrypt_chunks backend key (chunks plaintext) iv) encrypted,
          cbc_decrypt_chunks-encrypt (chunks plaintext) iv blocks hi,
          concat-chunks plaintext,
        )
        refl

  length-cbc_encrypt_chunks :
      (blocks : List (List ℕ)) (prev : List ℕ)
      → length (cbc_encrypt_chunks backend key blocks prev) ≡ length blocks
  unfolding cbc_encrypt_chunks
  length-cbc_encrypt_chunks [] prev = refl
  length-cbc_encrypt_chunks (b ∷ bs) prev =
      ap suc (length-cbc_encrypt_chunks bs (backend.encrypt_block (xor_bytes b prev) key))

  pub length-aes_cbc_encrypt :
      (plaintext iv : List ℕ)
      → length plaintext % 16 ≡ 0
      → All IsByte plaintext
      → IsBlock iv
      → length (aes_cbc_encrypt backend key plaintext iv) ≡ length plaintext
  unfolding aes_cbc_encrypt
  length-aes_cbc_encrypt plaintext iv fill hb hi =
      let blocks = chunks-IsBlock plaintext fill hb in
      rw (chunks_exact-chunks plaintext fill hb) (
        length-concat_blocks (cbc_encrypt_chunks backend key (chunks plaintext) iv)
          (cbc_encrypt_chunks-IsBlock (chunks plaintext) iv blocks hi)
        ∙ ap (λ (n : ℕ). 16 * n) (length-cbc_encrypt_chunks (chunks plaintext) iv)
        ∙ sym (length-concat_blocks (chunks plaintext) blocks)
        ∙ ap length (concat-chunks plaintext))

  ecb_encrypt_chunks-IsBlock :
      (blocks : List (List ℕ))
      → All IsBlock blocks
      → All IsBlock (ecb_encrypt_chunks backend key blocks)
  unfolding ecb_encrypt_chunks
  ecb_encrypt_chunks-IsBlock [] h = tt
  ecb_encrypt_chunks-IsBlock (b ∷ bs) (hb, h) =
      (cipher.encrypt-IsBlock b key hb hk, ecb_encrypt_chunks-IsBlock bs h)

  ecb_decrypt_chunks-encrypt :
      (blocks : List (List ℕ))
      → All IsBlock blocks
      → ecb_decrypt_chunks backend key (ecb_encrypt_chunks backend key blocks) ≡ blocks
  unfolding ecb_encrypt_chunks ecb_decrypt_chunks
  ecb_decrypt_chunks-encrypt [] h = refl
  ecb_decrypt_chunks-encrypt (b ∷ bs) (hb, h) =
      ap₂ (λ (x : List ℕ) (xs : List (List ℕ)). x ∷ xs) (cipher.decrypt-encrypt b key hb hk)
        (ecb_decrypt_chunks-encrypt bs h)

  pub aes_ecb_decrypt-encrypt :
      (plaintext : List ℕ)
      → length plaintext % 16 ≡ 0
      → All IsByte plaintext
      → aes_ecb_decrypt backend key (aes_ecb_encrypt backend key plaintext) ≡ pkcs7_unpad plaintext
  unfolding aes_ecb_decrypt aes_ecb_encrypt
  aes_ecb_decrypt-encrypt plaintext fill hb =
      let blocks = chunks-IsBlock plaintext fill hb in
      rw
        (
          chunks_exact-chunks plaintext fill hb,
          chunks_exact-blocks (ecb_encrypt_chunks backend key (chunks plaintext))
              (ecb_encrypt_chunks-IsBlock (chunks plaintext) blocks),
          ecb_decrypt_chunks-encrypt (chunks plaintext) blocks,
          concat-chunks plaintext,
        )
        refl

  length-ecb_encrypt_chunks :
      (blocks : List (List ℕ)) → length (ecb_encrypt_chunks backend key blocks) ≡ length blocks
  unfolding ecb_encrypt_chunks
  length-ecb_encrypt_chunks [] = refl
  length-ecb_encrypt_chunks (b ∷ bs) = ap suc (length-ecb_encrypt_chunks bs)

  pub length-aes_ecb_encrypt :
      (plaintext : List ℕ)
      → length plaintext % 16 ≡ 0
      → All IsByte plaintext
      → length (aes_ecb_encrypt backend key plaintext) ≡ length plaintext
  unfolding aes_ecb_encrypt
  length-aes_ecb_encrypt plaintext fill hb =
      let blocks = chunks-IsBlock plaintext fill hb in
      rw (chunks_exact-chunks plaintext fill hb) (
        length-concat_blocks (ecb_encrypt_chunks backend key (chunks plaintext))
          (ecb_encrypt_chunks-IsBlock (chunks plaintext) blocks)
        ∙ ap (λ (n : ℕ). 16 * n) (length-ecb_encrypt_chunks (chunks plaintext))
        ∙ sym (length-concat_blocks (chunks plaintext) blocks)
        ∙ ap length (concat-chunks plaintext))
