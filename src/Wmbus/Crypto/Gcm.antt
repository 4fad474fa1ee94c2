-- ===== src/Wmbus/Crypto/Gcm.antt =====
-- src/wmbus/crypto.rs: mode 9, which is authenticated.
pub mod Authenticated
use mbuscrate.Prelude.{
  ℕ, ◌+◌, ◌-◌, ◌%◌, List, [], ◌∷◌, ◌++◌, Bool, ◌&&◌, ◌==◌, ltb, leb, if◌then◌else◌, length, get_or,
  take, drop, replicate, bit_xor, Result, ok, err, Option, none, some, from_le_bytes,
}
use mbuscrate.Wmbus.Crypto.Modes.{CryptoError, decryption_failed, encryption_failed, invalid_frame}
use mbuscrate.Wmbus.Crypto.{
  Aead, DeviceInfo, WmBusCrypto, build_gcm_aad, build_gcm_iv, calculate_crc16, add_crc_to_plaintext,
}

-- `*byte ^= key.as_bytes()[i % 16]`, from index `i` on.
xor_cycled : List ℕ → ℕ → List ℕ → List ℕ
xor_cycled key i [] = []
xor_cycled key i (b ∷ bs) = bit_xor b (get_or key (i % 16) 0) ∷ xor_cycled key (i + 1) bs

opened : Option (List ℕ) → Result CryptoError (List ℕ)
opened (some plaintext) = ok plaintext
opened none = err decryption_failed

-- Without the crate, the bytes are only masked with the key, and the tag is not looked at.
pub aes_gcm_decrypt :
    Option Aead → List ℕ → List ℕ → List ℕ → List ℕ → List ℕ → Result CryptoError (List ℕ)
unfolding opened xor_cycled
aes_gcm_decrypt (some aead) key ciphertext aad iv tag =
    let padding = if length tag == 12 then replicate 4 0 else [] in
    opened (aead.decrypt key iv aad (ciphertext ++ (tag ++ padding)))
aes_gcm_decrypt none key ciphertext aad iv tag = ok (xor_cycled key 0 ciphertext)

-- `split_at(combined.len() - 16)`.
sealed : Option (List ℕ) → Result CryptoError (List ℕ × List ℕ)
sealed (some combined) =
    ok (take (length combined - 16) combined, drop (length combined - 16) combined)
sealed none = err encryption_failed

pub aes_gcm_encrypt :
    Option Aead → List ℕ → List ℕ → List ℕ → List ℕ → Result CryptoError (List ℕ × List ℕ)
unfolding sealed xor_cycled
aes_gcm_encrypt (some aead) key plaintext aad iv = sealed (aead.encrypt key iv aad plaintext)
aes_gcm_encrypt none key plaintext aad iv = ok (xor_cycled key 0 plaintext, replicate 16 0xAA)

-- The CRC that is looked for at the front of the plaintext.
pub checked : Bool → List ℕ → Result CryptoError (List ℕ)
checked verify plaintext =
    if verify && leb 2 (length plaintext)
    then (if from_le_bytes (take 2 plaintext) == calculate_crc16 (drop 2 plaintext)
        then ok (drop 2 plaintext)
        else err decryption_failed)
    else ok plaintext

-- `?` on the decryption.
and_checked : Bool → Result CryptoError (List ℕ) → Result CryptoError (List ℕ)
unfolding checked
and_checked verify (ok plaintext) = checked verify plaintext
and_checked verify (err e) = err e

decrypt_with_aad :
    Result CryptoError (List ℕ)
    → WmBusCrypto
    → List ℕ
    → List ℕ
    → DeviceInfo
    → Result CryptoError (List ℕ)
unfolding and_checked
decrypt_with_aad (err e) c key ciphertext info = err e
decrypt_with_aad (ok aad) c key ciphertext info =
    let tag_len = if leb 16 (length ciphertext) && c.full_tag_compatibility then 16 else 12 in
    let split = length ciphertext - tag_len in
    and_checked c.verify_crc_mode9 (
      aes_gcm_decrypt c.aead key (take split ciphertext) aad (build_gcm_iv info)
        (drop split ciphertext))

pub decrypt_gcm_mode :
    WmBusCrypto → List ℕ → List ℕ → List ℕ → DeviceInfo → Result CryptoError (List ℕ)
unfolding decrypt_with_aad
decrypt_gcm_mode c key ciphertext full_frame info =
    if ltb (length ciphertext) 12
    then err invalid_frame
    else decrypt_with_aad (build_gcm_aad full_frame) c key ciphertext info

with_tag : Bool → Result CryptoError (List ℕ × List ℕ) → Result CryptoError (List ℕ)
with_tag full_tag (ok (ciphertext, tag)) =
    ok (ciphertext ++ (if full_tag then tag else take 12 tag))
with_tag full_tag (err e) = err e

encrypt_with_aad :
    Result CryptoError (List ℕ)
    → WmBusCrypto
    → List ℕ
    → List ℕ
    → DeviceInfo
    → Result CryptoError (List ℕ)
unfolding with_tag
encrypt_with_aad (err e) c key plaintext info = err e
encrypt_with_aad (ok aad) c key plaintext info =
    let plaintext_to_encrypt =
      if c.add_crc_mode9 then add_crc_to_plaintext plaintext else plaintext in
    with_tag c.full_tag_compatibility
      (aes_gcm_encrypt c.aead key plaintext_to_encrypt aad (build_gcm_iv info))

pub encrypt_gcm_mode :
    WmBusCrypto → List ℕ → List ℕ → List ℕ → DeviceInfo → Result CryptoError (List ℕ)
unfolding encrypt_with_aad
encrypt_gcm_mode c key plaintext full_frame info =
    encrypt_with_aad (build_gcm_aad full_frame) c key plaintext info
