-- ===== src/Wmbus/Crypto/Tests.antt =====
-- The theorems on encrypted frames at concrete inputs.
use mbuscrate.Prelude.{
  ℕ, ◌+◌, ◌-◌, ◌≡◌, refl, ap, List, [], ◌∷◌, ◌++◌, length, length-append, take, take-append,
  replicate, none, some, ok, arith, IsByte-All,
}
use mbuscrate.Wmbus.Crypto.Backend.{software, software-IsCipher}
use mbuscrate.Wmbus.Crypto.{Aead, DeviceInfo, new, mode7_cbc, get_ci_for_mode, build_gcm_aad}
use mbuscrate.Wmbus.Crypto.Gcm.{encrypt_gcm_mode, decrypt_gcm_mode}
use mbuscrate.Wmbus.Crypto.Gcm.Authenticated.{
  front_crc_verified, IsAead, sealed_text, decrypt_gcm_mode-encrypt_gcm_mode,
}
use mbuscrate.Wmbus.Crypto.Frames.{encrypt_frame, decrypt_frame}
use mbuscrate.Wmbus.Crypto.Frames.RoundTrip.{decrypt_frame-encrypt_frame}

abbrev master_key : List ℕ
master_key = 1 ∷ 2 ∷ 3 ∷ 4 ∷ 5 ∷ 6 ∷ 7 ∷ 8 ∷ 9 ∷ 10 ∷ 11 ∷ 12 ∷ 13 ∷ 14 ∷ 15 ∷ 16 ∷ []

abbrev info : DeviceInfo
info = record {
  device_id = 0x12345678;
  manufacturer = 0x2C2D;
  version = 1;
  device_type = 7;
  access_number = none;
}

abbrev front : List ℕ
front = 20 ∷ 0x44 ∷ 0x2D ∷ 0x2C ∷ 0x78 ∷ 0x56 ∷ 0x34 ∷ 0x12 ∷ 1 ∷ 7 ∷ []

abbrev payload : List ℕ
payload = 0x2F ∷ 0x2F ∷ 1 ∷ 2 ∷ 3 ∷ []

decrypt_frame-encrypt_frame_example :
    (encrypted : List ℕ) × (encrypt_frame
        (new software none master_key)
        (front ++ (0x72 ∷ payload))
        info
        mode7_cbc
      ≡ ok (front ++ (get_ci_for_mode mode7_cbc ∷ encrypted)))
    × (decrypt_frame
          (new software none master_key)
          (front ++ (get_ci_for_mode mode7_cbc ∷ encrypted))
          info
        ≡ ok (front ++ (get_ci_for_mode mode7_cbc ∷ payload)))
decrypt_frame-encrypt_frame_example =
    decrypt_frame-encrypt_frame (new software none master_key) info mode7_cbc front 0x72 payload
      software-IsCipher (refl, IsByte-All master_key refl) (omega arith) tt refl (omega arith)
      (IsByte-All payload refl)

-- The smallest cipher with a tag: the message in clear and 16 zeros.
abbrev plain_aead : Aead
plain_aead = record {
  encrypt = λ key iv aad message. some (message ++ replicate 16 0);
  decrypt = λ key iv aad combined. some (take (length combined - 16) combined);
}

plain_aead-IsAead : IsAead plain_aead
plain_aead-IsAead = record {
  encrypts = λ key iv aad message.
      let size : length (message ++ replicate 16 0) ≡ length message + 16 =
        length-append message (replicate 16 0) in
      let front : length (message ++ replicate 16 0) - 16 ≡ length message = omega (arith, size) in
      (
        message ++ replicate 16 0,
        refl,
        size,
        rw front (ap some (take-append message (replicate 16 0))),
      );
}

abbrev frame : List ℕ
frame = front ++ (0x79 ∷ payload)

decrypt_gcm_mode-encrypt_gcm_mode_example :
    (encrypted : List ℕ) × (encrypt_gcm_mode
        (new software (some plain_aead) master_key)
        master_key
        payload
        frame
        info
      ≡ ok encrypted)
    × (decrypt_gcm_mode
          (new software (some plain_aead) master_key)
          master_key
          encrypted
          (front ++ (0x89 ∷ []))
          info
        ≡ front_crc_verified
            (new software (some plain_aead) master_key).verify_crc_mode9
            (sealed_text (new software (some plain_aead) master_key) payload))
unfolding build_gcm_aad
decrypt_gcm_mode-encrypt_gcm_mode_example =
    decrypt_gcm_mode-encrypt_gcm_mode (new software (some plain_aead) master_key) plain_aead info
      master_key payload frame (front ++ (0x89 ∷ [])) (front ++ (9 ∷ [])) refl plain_aead-IsAead
      refl refl refl
