-- ===== src/Wmbus/Crypto/Frames.antt =====
-- src/wmbus/crypto.rs: whole frames.
pub mod Payloads
pub mod RoundTrip
use mbuscrate.Prelude.{
  ℕ, ◌+◌, List, [], ◌∷◌, ◌++◌, Bool, true, false, ltb, leb, if◌then◌else◌, length, get_or, take,
  drop, Result, ok, err,
}
use mbuscrate.Wmbus.Crypto.Modes.{CryptoError, invalid_frame, unsupported_mode}
use mbuscrate.Wmbus.Crypto.{
  DeviceInfo, WmBusCrypto, EncryptionMode, mode5_ctr, mode7_cbc, mode9_gcm, ell_ecb, no_encryption,
  from_ci_field, get_ci_for_mode, find_ci_offset, derive_device_key, decrypt_ctr_mode,
  encrypt_ctr_mode, decrypt_cbc_mode, encrypt_cbc_mode, decrypt_ecb_mode, encrypt_ecb_mode,
}
use mbuscrate.Wmbus.Crypto.Gcm.{decrypt_gcm_mode, encrypt_gcm_mode}

-- The two `match`es on the mode. The arm for no encryption is reached by neither caller.
pub decrypt_payload :
    EncryptionMode
    → WmBusCrypto
    → List ℕ
    → List ℕ
    → List ℕ
    → DeviceInfo
    → Result CryptoError (List ℕ)
decrypt_payload mode5_ctr c key payload frame info = decrypt_ctr_mode c key payload info
decrypt_payload mode7_cbc c key payload frame info = decrypt_cbc_mode c key payload info
decrypt_payload mode9_gcm c key payload frame info = decrypt_gcm_mode c key payload frame info
decrypt_payload ell_ecb c key payload frame info = decrypt_ecb_mode c key payload
decrypt_payload no_encryption c key payload frame info = err (unsupported_mode (get_or frame 10 0))

pub encrypt_payload :
    EncryptionMode
    → WmBusCrypto
    → List ℕ
    → List ℕ
    → List ℕ
    → DeviceInfo
    → Result CryptoError (List ℕ)
encrypt_payload mode5_ctr c key payload frame info = encrypt_ctr_mode c key payload info
encrypt_payload mode7_cbc c key payload frame info = encrypt_cbc_mode c key payload info
encrypt_payload mode9_gcm c key payload frame info = encrypt_gcm_mode c key payload frame info
encrypt_payload ell_ecb c key payload frame info = encrypt_ecb_mode c key payload
encrypt_payload no_encryption c key payload frame info = ok payload

-- `?` on the payload, and the frame around it.
framed : List ℕ → Result CryptoError (List ℕ) → Result CryptoError (List ℕ)
framed front (ok payload) = ok (front ++ payload)
framed front (err e) = err e

is_none : EncryptionMode → Bool
is_none no_encryption = true
is_none mode5_ctr = false
is_none mode7_cbc = false
is_none mode9_gcm = false
is_none ell_ecb = false

decrypt_at :
    Result CryptoError ℕ → WmBusCrypto → List ℕ → DeviceInfo → List ℕ → Result CryptoError (List ℕ)
unfolding decrypt_payload framed is_none
decrypt_at (err e) c frame info key = err e
decrypt_at (ok ci_offset) c frame info key =
    let ci = get_or frame ci_offset 0 in
    let mode = from_ci_field ci in
    let payload_start = ci_offset + 1 in
    if is_none mode
    then err (unsupported_mode ci)
    else if leb (length frame) payload_start
    then err invalid_frame
    else framed (take payload_start frame)
        (decrypt_payload mode c key (drop payload_start frame) frame info)

pub decrypt_frame_with_effective_key :
    WmBusCrypto → List ℕ → DeviceInfo → List ℕ → Result CryptoError (List ℕ)
unfolding decrypt_at
decrypt_frame_with_effective_key c frame info key =
    if ltb (length frame) 11
    then err invalid_frame
    else decrypt_at (find_ci_offset frame) c frame info key

pub decrypt_frame : WmBusCrypto → List ℕ → DeviceInfo → Result CryptoError (List ℕ)
unfolding decrypt_frame_with_effective_key
decrypt_frame c frame info =
    decrypt_frame_with_effective_key c frame info
      (derive_device_key c.master_key info.device_id info.manufacturer)

encrypt_at :
    Result CryptoError ℕ
    → WmBusCrypto
    → List ℕ
    → DeviceInfo
    → EncryptionMode
    → Result CryptoError (List ℕ)
unfolding encrypt_payload framed
encrypt_at (err e) c frame info mode = err e
encrypt_at (ok ci_offset) c frame info mode =
    let payload_start = ci_offset + 1 in
    let device_key = derive_device_key c.master_key info.device_id info.manufacturer in
    if leb (length frame) payload_start
    then err invalid_frame
    else framed (take ci_offset frame ++ (get_ci_for_mode mode ∷ []))
        (encrypt_payload mode c device_key (drop payload_start frame) frame info)

pub encrypt_frame : WmBusCrypto → List ℕ → DeviceInfo → EncryptionMode → Result CryptoError (List ℕ)
unfolding encrypt_at is_none
encrypt_frame c frame info mode =
    if is_none mode then ok frame else encrypt_at (find_ci_offset frame) c frame info mode
