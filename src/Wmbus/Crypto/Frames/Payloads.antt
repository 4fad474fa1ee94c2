-- ===== src/Wmbus/Crypto/Frames/Payloads.antt =====
-- Payloads encrypted and decrypted again, in the modes without authentication.
use mbuscrate.Prelude.{
  ℕ, zero, suc, ◌/◌, ◌%◌, ◌^◌, ◌≤◌, ◌≡◌, refl, ap, ◌∙◌, List, ◌++◌, true, false, ◌==◌, length, ok,
  arith, All, IsByte, IsU16, IsU32, to_le_bytes,
}
use mbuscrate.Wmbus.Crypto.Backend.{IsCipher, IsBlock, xor_bytes-IsByte, length-xor_bytes}
use mbuscrate.Wmbus.Crypto.Modes.{aes_ctr_process, aes_cbc_encrypt, aes_ecb_encrypt, pkcs7_pad}
use mbuscrate.Wmbus.Crypto.Modes.Chains.{
  aes_ctr_process_twice, length-aes_ctr_process, aes_cbc_decrypt-encrypt, length-aes_cbc_encrypt,
  aes_ecb_decrypt-encrypt, length-aes_ecb_encrypt,
}
use mbuscrate.Wmbus.Crypto.Modes.Padding.{pkcs7_unpad-pad, pkcs7_pad_fills}
use mbuscrate.Wmbus.Crypto.{
  DeviceInfo, WmBusCrypto, EncryptionMode, mode5_ctr, mode7_cbc, mode9_gcm, ell_ecb, no_encryption,
  build_ctr_iv, build_cbc_iv, derive_device_key, decrypt_ctr_mode, encrypt_ctr_mode,
  decrypt_cbc_mode, encrypt_cbc_mode, decrypt_ecb_mode, encrypt_ecb_mode,
}
use mbuscrate.Wmbus.Crypto.Frames.{decrypt_payload, encrypt_payload}

-- The fields of a device are a word of 32 bits, a word of 16 bits and two bytes.
abbrev pub IsInfo : DeviceInfo → Type 0
IsInfo info =
    IsU32 info.device_id × IsU16 info.manufacturer × IsByte info.version × IsByte info.device_type

-- The modes 5 and 7, and ELL.
abbrev pub IsUnauthenticated : EncryptionMode → Type 0
IsUnauthenticated mode5_ctr = Unit
IsUnauthenticated mode7_cbc = Unit
IsUnauthenticated mode9_gcm = ⊥
IsUnauthenticated ell_ecb = Unit
IsUnauthenticated no_encryption = ⊥

to_le_bytes-IsByte : (n w : ℕ) → All IsByte (to_le_bytes n w)
to_le_bytes-IsByte zero w = tt
to_le_bytes-IsByte (suc n) w = (omega arith, to_le_bytes-IsByte n (w / 2 ^ 8))

build_cbc_iv-IsBlock : (info : DeviceInfo) → IsInfo info → IsBlock (build_cbc_iv info)
unfolding build_cbc_iv
build_cbc_iv-IsBlock info (hd, hm, hv, ht) = omega (arith, hv, ht)

pub derive_device_key-IsBlock :
    (key : List ℕ) (device_id manufacturer : ℕ)
    → IsBlock key
    → IsBlock (derive_device_key key device_id manufacturer)
unfolding derive_device_key
derive_device_key-IsBlock key d m (size, hk) =
    (length-xor_bytes key pattern_bytes ∙ size, xor_bytes-IsByte key pattern_bytes hk (omega arith))
  where
    pattern_bytes : List ℕ
    pattern_bytes = to_le_bytes 4 d ++ to_le_bytes 4 d ++ to_le_bytes 2 m ++ to_le_bytes 2 m

-- What is encrypted, with the proof that it decrypts and is not empty.
abbrev pub IsPayloadRoundTrip : EncryptionMode → WmBusCrypto → List ℕ → DeviceInfo → List ℕ → Type 0
IsPayloadRoundTrip mode c key info payload =
    (encrypted : List ℕ) × ((frame : List ℕ)
      → encrypt_payload mode c key payload frame info ≡ ok encrypted)
    × ((frame : List ℕ) → decrypt_payload mode c key encrypted frame info ≡ ok payload)
    × (1 ≤ length encrypted)

multiple : {n m : ℕ} → n ≡ m → m % 16 ≡ 0 → (n % 16 == 0) ≡ true
multiple {n} {m} e h = rw (e, h) refl

module _ (c : WmBusCrypto) (cipher : IsCipher c.backend) (info : DeviceInfo) (hinfo : IsInfo info)
    (key : List ℕ) (hk : IsBlock key) where
  ctr_payload :
      (payload : List ℕ) → 1 ≤ length payload → IsPayloadRoundTrip mode5_ctr c key info payload
  unfolding encrypt_payload decrypt_payload encrypt_ctr_mode decrypt_ctr_mode
  ctr_payload payload some_bytes = (
    encrypted,
    (λ frame. rw payload_bytes refl),
    (λ frame.
        rw encrypted_bytes
          (ap ok (aes_ctr_process_twice c.backend key payload (build_ctr_iv info)))),
    omega (arith, same),
  )
    where
      encrypted : List ℕ
      encrypted = aes_ctr_process c.backend key payload (build_ctr_iv info)

      same : length encrypted ≡ length payload
      same = length-aes_ctr_process c.backend key payload (build_ctr_iv info)

      payload_bytes : (length payload == 0) ≡ false
      payload_bytes = ground arith

      encrypted_bytes : (length encrypted == 0) ≡ false
      encrypted_bytes = ground (arith, same)

  cbc_payload :
      (payload : List ℕ) → All IsByte payload → IsPayloadRoundTrip mode7_cbc c key info payload
  unfolding encrypt_payload decrypt_payload encrypt_cbc_mode decrypt_cbc_mode
  cbc_payload payload hb =
      let (fill, padded, some_bytes) = pkcs7_pad_fills payload hb in
      let iv = build_cbc_iv-IsBlock info hinfo in
      let same =
        length-aes_cbc_encrypt c.backend cipher key hk (pkcs7_pad payload 16) (build_cbc_iv info)
          fill padded iv in
      (
        aes_cbc_encrypt c.backend key (pkcs7_pad payload 16) (build_cbc_iv info),
        (λ frame. refl),
        (λ frame. rw (multiple same fill) (
            aes_cbc_decrypt-encrypt c.backend cipher key hk (pkcs7_pad payload 16)
              (build_cbc_iv info) fill padded iv
            ∙ pkcs7_unpad-pad payload)),
        omega (arith, same, some_bytes),
      )

  ecb_payload :
      (payload : List ℕ) → All IsByte payload → IsPayloadRoundTrip ell_ecb c key info payload
  unfolding encrypt_payload decrypt_payload encrypt_ecb_mode decrypt_ecb_mode
  ecb_payload payload hb =
      let (fill, padded, some_bytes) = pkcs7_pad_fills payload hb in
      let same =
        length-aes_ecb_encrypt c.backend cipher key hk (pkcs7_pad payload 16) fill padded in
      (
        aes_ecb_encrypt c.backend key (pkcs7_pad payload 16),
        (λ frame. refl),
        (λ frame. rw (multiple same fill) (
            aes_ecb_decrypt-encrypt c.backend cipher key hk (pkcs7_pad payload 16) fill padded
            ∙ pkcs7_unpad-pad payload)),
        omega (arith, same, some_bytes),
      )

  pub payload_round_trip :
      (mode : EncryptionMode) (payload : List ℕ)
      → IsUnauthenticated mode
      → 1 ≤ length payload
      → All IsByte payload
      → IsPayloadRoundTrip mode c key info payload
  payload_round_trip mode5_ctr payload m some_bytes hb = ctr_payload payload some_bytes
  payload_round_trip mode7_cbc payload m some_bytes hb = cbc_payload payload hb
  payload_round_trip mode9_gcm payload m some_bytes hb = absurd m
  payload_round_trip ell_ecb payload m some_bytes hb = ecb_payload payload hb
  payload_round_trip no_encryption payload m some_bytes hb = absurd m
