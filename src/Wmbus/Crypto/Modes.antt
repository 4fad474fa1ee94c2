-- ===== src/Wmbus/Crypto/Modes.antt =====
-- src/wmbus/crypto.rs: the chains of blocks and the padding.
-- The result of `aes_encrypt_block` and `aes_decrypt_block` is always `Ok`, which is left out.
pub mod Chunks
pub mod Chains
pub mod Padding
pub mod Counter
mod Tests
use mbuscrate.Prelude.{
  ℕ, zero, suc, ◌+◌, ◌-◌, ◌%◌, ◌^◌, List, [], ◌∷◌, ◌++◌, Bool, true, false, ◌&&◌, ◌||◌, ◌==◌, ltb,
  if◌then◌else◌, length, get_or, take, drop, replicate, Result, ok, err,
}
use mbuscrate.Wmbus.ModeC.Sender.{concat}
use mbuscrate.Wmbus.Crypto.Backend.{AesBackend, xor_bytes}

-- `CryptoError` without its texts.
pub data CryptoError : Type 0 where
  invalid_key_length invalid_data_length : ℕ → ℕ → CryptoError
  unsupported_mode : ℕ → CryptoError
  invalid_iv decryption_failed encryption_failed invalid_frame key_derivation_failed : CryptoError

-- `data.chunks(16)`, with at most `rounds` chunks.
chunks_from : ℕ → List ℕ → List (List ℕ)
chunks_from zero bytes = []
chunks_from (suc rounds) [] = []
chunks_from (suc rounds) (b ∷ bs) = take 16 (b ∷ bs) ∷ chunks_from rounds (drop 16 (b ∷ bs))

pub chunks : List ℕ → List (List ℕ)
unfolding chunks_from
chunks bytes = chunks_from (length bytes) bytes

-- `data.chunks_exact(16)`: bytes that do not fill a chunk are left out.
chunks_exact_from : ℕ → List ℕ → List (List ℕ)
chunks_exact_from zero bytes = []
chunks_exact_from (suc rounds) bytes =
    let rest = chunks_exact_from rounds (drop 16 bytes) in
    if ltb (length bytes) 16 then [] else take 16 bytes ∷ rest

pub chunks_exact : List ℕ → List (List ℕ)
unfolding chunks_exact_from
chunks_exact bytes = chunks_exact_from (length bytes) bytes

-- The loop over the bytes of the counter, from the last to the first: the bytes, and whether
-- there is a carry.
increment_bytes : List ℕ → List ℕ × Bool
increment_bytes [] = ([], true)
increment_bytes (b ∷ bs) =
    let (low, carry) = increment_bytes bs in
    let next = (b + 1) % 2 ^ 8 in if carry then (next ∷ low, next == 0) else (b ∷ low, false)

pub increment_counter : List ℕ → List ℕ
unfolding increment_bytes
increment_counter counter = (increment_bytes counter).0

ctr_chunks : AesBackend → List ℕ → List (List ℕ) → List ℕ → List (List ℕ)
ctr_chunks backend key [] counter = []
ctr_chunks backend key (chunk ∷ rest) counter =
    xor_bytes chunk (backend.encrypt_block counter key)
    ∷ ctr_chunks backend key rest (increment_counter counter)

pub aes_ctr_process : AesBackend → List ℕ → List ℕ → List ℕ → List ℕ
unfolding ctr_chunks
aes_ctr_process backend key bytes iv = concat (ctr_chunks backend key (chunks bytes) iv)

cbc_encrypt_chunks : AesBackend → List ℕ → List (List ℕ) → List ℕ → List (List ℕ)
cbc_encrypt_chunks backend key [] prev_block = []
cbc_encrypt_chunks backend key (chunk ∷ rest) prev_block =
    let encrypted_block = backend.encrypt_block (xor_bytes chunk prev_block) key in
    encrypted_block ∷ cbc_encrypt_chunks backend key rest encrypted_block

pub aes_cbc_encrypt : AesBackend → List ℕ → List ℕ → List ℕ → List ℕ
unfolding cbc_encrypt_chunks
aes_cbc_encrypt backend key plaintext iv =
    concat (cbc_encrypt_chunks backend key (chunks_exact plaintext) iv)

cbc_decrypt_chunks : AesBackend → List ℕ → List (List ℕ) → List ℕ → List (List ℕ)
cbc_decrypt_chunks backend key [] prev_block = []
cbc_decrypt_chunks backend key (block ∷ rest) prev_block =
    xor_bytes (backend.decrypt_block block key) prev_block
    ∷ cbc_decrypt_chunks backend key rest block

ecb_encrypt_chunks : AesBackend → List ℕ → List (List ℕ) → List (List ℕ)
ecb_encrypt_chunks backend key [] = []
ecb_encrypt_chunks backend key (chunk ∷ rest) =
    backend.encrypt_block chunk key ∷ ecb_encrypt_chunks backend key rest

pub aes_ecb_encrypt : AesBackend → List ℕ → List ℕ → List ℕ
unfolding ecb_encrypt_chunks
aes_ecb_encrypt backend key plaintext =
    concat (ecb_encrypt_chunks backend key (chunks_exact plaintext))

ecb_decrypt_chunks : AesBackend → List ℕ → List (List ℕ) → List (List ℕ)
ecb_decrypt_chunks backend key [] = []
ecb_decrypt_chunks backend key (chunk ∷ rest) =
    backend.decrypt_block chunk key ∷ ecb_decrypt_chunks backend key rest

pub pkcs7_pad : List ℕ → ℕ → List ℕ
pkcs7_pad bytes block_size =
    let pad_len = block_size - length bytes % block_size in
    bytes ++ replicate pad_len (pad_len % 2 ^ 8)

-- The loop over the last `pad_len` bytes.
all_equal : ℕ → List ℕ → Bool
all_equal pad_len [] = true
all_equal pad_len (b ∷ bs) = if b == pad_len then all_equal pad_len bs else false

pub pkcs7_unpad : List ℕ → Result CryptoError (List ℕ)
unfolding all_equal
pkcs7_unpad bytes =
    let pad_len = get_or bytes (length bytes - 1) 0 in
    if length bytes == 0
    then err decryption_failed
    else if pad_len == 0 || ltb 16 pad_len || ltb (length bytes) pad_len
    then err decryption_failed
    else if all_equal pad_len (drop (length bytes - pad_len) bytes)
    then ok (take (length bytes - pad_len) bytes)
    else err decryption_failed

pub aes_cbc_decrypt : AesBackend → List ℕ → List ℕ → List ℕ → Result CryptoError (List ℕ)
unfolding cbc_decrypt_chunks
aes_cbc_decrypt backend key ciphertext iv =
    pkcs7_unpad (concat (cbc_decrypt_chunks backend key (chunks_exact ciphertext) iv))

pub aes_ecb_decrypt : AesBackend → List ℕ → List ℕ → Result CryptoError (List ℕ)
unfolding ecb_decrypt_chunks
aes_ecb_decrypt backend key ciphertext =
    pkcs7_unpad (concat (ecb_decrypt_chunks backend key (chunks_exact ciphertext)))
