-- ===== src/Wmbus/Crypto.antt =====
-- src/wmbus/crypto.rs: frames encrypted and decrypted, in the modes of wM-Bus.
-- The crates `aes` and `aes_gcm` are not in the repository: the block cipher is the field `backend`,
-- and the field `aead` is the authenticated cipher, `none` in a build without the feature `crypto`.
-- The vendors' keys, LoRaWAN and the log throttle are left out.
pub mod Backend
pub mod Modes
pub mod Cut
pub mod Gcm
pub mod Frames
mod Tests
use mbuscrate.Prelude.{
  ℕ, zero, suc, ◌+◌, ◌-◌, ◌*◌, ◌/◌, ◌%◌, ◌^◌, List, [], ◌∷◌, ◌++◌, Bool, true, false, not, ◌&&◌,
  ◌||◌, ◌==◌, ltb, leb, if◌then◌else◌, length, get_or, take, drop, slice, replicate, map, bit_and,
  bit_xor, bit_or, Result, ok, err, Option, none, some, to_le_bytes, from_le_bytes,
}
use mbuscrate.Wmbus.Crypto.Backend.{AesBackend, xor_bytes}
use mbuscrate.Wmbus.Crypto.Modes.{
  CryptoError, invalid_key_length, invalid_data_length, unsupported_mode, decryption_failed,
  encryption_failed, invalid_frame, aes_ctr_process, aes_cbc_encrypt, aes_cbc_decrypt,
  aes_ecb_encrypt, aes_ecb_decrypt, pkcs7_pad,
}

-- `no_encryption` is the variant `None`.
pub data EncryptionMode : Type 0 where
  mode5_ctr mode7_cbc mode9_gcm ell_ecb no_encryption : EncryptionMode

pub from_ci_field : ℕ → EncryptionMode
from_ci_field ci =
    if ci == 0x7A || ci == 0x7B
    then mode5_ctr
    else if ci == 0x8A || ci == 0x8B
    then mode7_cbc
    else if ci == 0x89
    then mode9_gcm
    else if leb 0x90 ci && leb ci 0x97
    then ell_ecb
    else no_encryption

pub get_ci_for_mode : EncryptionMode → ℕ
get_ci_for_mode mode5_ctr = 0x7A
get_ci_for_mode mode7_cbc = 0x8A
get_ci_for_mode mode9_gcm = 0x89
get_ci_for_mode ell_ecb = 0x90
get_ci_for_mode no_encryption = 0x72

-- `AesKey` is its bytes.
pub from_bytes : List ℕ → Result CryptoError (List ℕ)
from_bytes bytes =
    if length bytes == 16 then ok bytes else err (invalid_key_length 16 (length bytes))

-- The two loops, one after the other over the first twelve bytes.
unfoldable pub derive_device_key : List ℕ → ℕ → ℕ → List ℕ
derive_device_key key device_id manufacturer =
    let device_bytes = to_le_bytes 4 device_id in
    let mfg_bytes = to_le_bytes 2 manufacturer in
    xor_bytes key (device_bytes ++ device_bytes ++ mfg_bytes ++ mfg_bytes)

pub record DeviceInfo : Type 0 where
  pub device_id : ℕ
  pub manufacturer : ℕ
  pub version : ℕ
  pub device_type : ℕ
  pub access_number : Option ℕ

-- The crate aes_gcm. Both take the key, the nonce, the associated data and the message; what is
-- encrypted ends in a tag of 16 bytes.
pub record Aead : Type 0 where
  pub encrypt : List ℕ → List ℕ → List ℕ → List ℕ → Option (List ℕ)
  pub decrypt : List ℕ → List ℕ → List ℕ → List ℕ → Option (List ℕ)

pub record WmBusCrypto : Type 0 where
  pub master_key : List ℕ
  pub backend : AesBackend
  pub aead : Option Aead
  pub add_crc_mode9 : Bool
  pub verify_crc_mode9 : Bool
  pub full_tag_compatibility : Bool

abbrev pub new : AesBackend → Option Aead → List ℕ → WmBusCrypto
new backend aead master_key = record {
  master_key = master_key;
  backend = backend;
  aead = aead;
  add_crc_mode9 = false;
  verify_crc_mode9 = false;
  full_tag_compatibility = true;
}

unfoldable pub set_crc_mode : Bool → Bool → WmBusCrypto → WmBusCrypto
set_crc_mode add verify c = record c { add_crc_mode9 = add; verify_crc_mode9 = verify }

unfoldable pub set_tag_mode : Bool → WmBusCrypto → WmBusCrypto
set_tag_mode full_tag c = record c { full_tag_compatibility = full_tag }

pub find_ci_offset : List ℕ → Result CryptoError ℕ
find_ci_offset frame = if leb (length frame) 10 then err invalid_frame else ok 10

-- The first eight bytes of both IVs.
abbrev device_bytes : DeviceInfo → List ℕ
device_bytes info =
    to_le_bytes 2 info.manufacturer
    ++ to_le_bytes 4 info.device_id
    ++ (info.version ∷ info.device_type ∷ [])

pub build_ctr_iv : DeviceInfo → List ℕ
build_ctr_iv info = device_bytes info ++ replicate 8 0

-- `>>` on the device id, for the bytes 8 to 15.
pub build_cbc_iv : DeviceInfo → List ℕ
build_cbc_iv info =
    let id = info.device_id in
    device_bytes info
    ++ map (λ (shift : ℕ). id / 2 ^ shift % 2 ^ 8) (0 ∷ 4 ∷ 8 ∷ 12 ∷ 16 ∷ 20 ∷ 24 ∷ 28 ∷ [])

pub decrypt_ctr_mode : WmBusCrypto → List ℕ → List ℕ → DeviceInfo → Result CryptoError (List ℕ)
unfolding build_ctr_iv
decrypt_ctr_mode c key ciphertext info =
    if length ciphertext == 0
    then ok []
    else ok (aes_ctr_process c.backend key ciphertext (build_ctr_iv info))

pub encrypt_ctr_mode : WmBusCrypto → List ℕ → List ℕ → DeviceInfo → Result CryptoError (List ℕ)
unfolding build_ctr_iv
encrypt_ctr_mode c key plaintext info =
    if length plaintext == 0
    then ok []
    else ok (aes_ctr_process c.backend key plaintext (build_ctr_iv info))

pub decrypt_cbc_mode : WmBusCrypto → List ℕ → List ℕ → DeviceInfo → Result CryptoError (List ℕ)
unfolding build_cbc_iv
decrypt_cbc_mode c key ciphertext info =
    if length ciphertext % 16 == 0
    then aes_cbc_decrypt c.backend key ciphertext (build_cbc_iv info)
    else err (invalid_data_length 16 (length ciphertext))

pub encrypt_cbc_mode : WmBusCrypto → List ℕ → List ℕ → DeviceInfo → Result CryptoError (List ℕ)
unfolding build_cbc_iv
encrypt_cbc_mode c key plaintext info =
    ok (aes_cbc_encrypt c.backend key (pkcs7_pad plaintext 16) (build_cbc_iv info))

pub decrypt_ecb_mode : WmBusCrypto → List ℕ → List ℕ → Result CryptoError (List ℕ)
decrypt_ecb_mode c key ciphertext =
    if length ciphertext % 16 == 0
    then aes_ecb_decrypt c.backend key ciphertext
    else err (invalid_data_length 16 (length ciphertext))

pub encrypt_ecb_mode : WmBusCrypto → List ℕ → List ℕ → Result CryptoError (List ℕ)
encrypt_ecb_mode c key plaintext = ok (aes_ecb_encrypt c.backend key (pkcs7_pad plaintext 16))

-- `[u8; 11]`: ten bytes of the header, and four bits of the byte behind it.
pub build_gcm_aad : List ℕ → Result CryptoError (List ℕ)
build_gcm_aad frame =
    if ltb (length frame) 11
    then err invalid_frame
    else ok (take 10 frame ++ (bit_and (get_or frame 10 0) 0x0F ∷ []))

access_or : Option ℕ → DeviceInfo → ℕ
access_or (some access_number) info = access_number
access_or none info = bit_or (info.version * 2 ^ 8) info.device_type

pub build_gcm_iv : DeviceInfo → List ℕ
unfolding access_or
build_gcm_iv info =
    to_le_bytes 2 info.manufacturer
    ++ to_le_bytes 4 info.device_id
    ++ to_le_bytes 6 (access_or info.access_number info)

pub extract_access_number : List ℕ → Option ℕ
extract_access_number frame = if ltb 10 (length frame) then some (get_or frame 10 0) else none

-- One shift of `calculate_crc16`, and the loops.
crc16_bits : ℕ → ℕ → ℕ
crc16_bits zero crc = crc
crc16_bits (suc n) crc =
    crc16_bits n
      (if bit_and crc 0x8000 == 0 then crc * 2 % 2 ^ 16 else bit_xor (crc * 2 % 2 ^ 16) 0x1021)

crc16_loop : ℕ → List ℕ → ℕ
unfolding crc16_bits
crc16_loop crc [] = crc
crc16_loop crc (byte ∷ bytes) = crc16_loop (crc16_bits 8 (bit_xor crc (byte * 2 ^ 8))) bytes

pub calculate_crc16 : List ℕ → ℕ
unfolding crc16_loop
calculate_crc16 bytes = 0xFFFF - crc16_loop 0xFFFF bytes

pub add_crc_to_plaintext : List ℕ → List ℕ
add_crc_to_plaintext plaintext = plaintext ++ to_le_bytes 2 (calculate_crc16 plaintext)
