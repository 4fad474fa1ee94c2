-- ===== src/Wmbus/Crypto/Frames/RoundTrip.antt =====
-- Frames encrypted and decrypted again, in the modes without authentication.
use mbuscrate.Prelude.{
  ℕ, ◌+◌, ◌≤◌, ◌≡◌, refl, ap, ◌∙◌, List, [], ◌∷◌, ◌++◌, append_assoc, false, ltb, leb, length, ok,
  arith, All, IsByte,
}
use mbuscrate.Wmbus.Crypto.Backend.{IsCipher, IsBlock}
use mbuscrate.Wmbus.Crypto.{
  DeviceInfo, WmBusCrypto, EncryptionMode, mode5_ctr, mode7_cbc, mode9_gcm, ell_ecb, no_encryption,
  from_ci_field, get_ci_for_mode, find_ci_offset, derive_device_key,
}
use mbuscrate.Wmbus.Crypto.Cut.{IsCut, cut}
use mbuscrate.Wmbus.Crypto.Frames.Payloads.{
  IsInfo, IsUnauthenticated, derive_device_key-IsBlock, payload_round_trip,
}
use mbuscrate.Wmbus.Crypto.Frames.{
  decrypt_payload, encrypt_payload, framed, is_none, decrypt_at, encrypt_at,
  decrypt_frame_with_effective_key, decrypt_frame, encrypt_frame,
}

-- The mode is found again in the CI byte that it leaves.
from_ci-mode :
    (mode : EncryptionMode) → IsUnauthenticated mode → from_ci_field (get_ci_for_mode mode) ≡ mode
unfolding from_ci_field get_ci_for_mode
from_ci-mode mode5_ctr m = refl
from_ci-mode mode7_cbc m = refl
from_ci-mode mode9_gcm m = absurd m
from_ci-mode ell_ecb m = refl
from_ci-mode no_encryption m = absurd m

is_none-mode : (mode : EncryptionMode) → IsUnauthenticated mode → is_none mode ≡ false
unfolding is_none
is_none-mode mode5_ctr m = refl
is_none-mode mode7_cbc m = refl
is_none-mode mode9_gcm m = refl
is_none-mode ell_ecb m = refl
is_none-mode no_encryption m = absurd m

find_ci_offset-long :
    (frame : List ℕ) (n : ℕ) → length frame ≡ 11 + n → find_ci_offset frame ≡ ok 10
unfolding find_ci_offset
find_ci_offset-long frame n size = rw test refl
  where
    test : leb (length frame) 10 ≡ false
    test = ground (arith, size)

encrypt_frame-cut :
    (c : WmBusCrypto) (info : DeviceInfo) (mode : EncryptionMode) (front : List ℕ) (ci : ℕ)
    (payload frame encrypted : List ℕ)
    → IsCut front ci payload frame
    → IsUnauthenticated mode
    → 1 ≤ length payload
    → encrypt_payload mode c
        (derive_device_key c.master_key info.device_id info.manufacturer)
        payload
        frame
        info
      ≡ ok encrypted
    → encrypt_frame c frame info mode ≡ ok ((front ++ (get_ci_for_mode mode ∷ [])) ++ encrypted)
unfolding encrypt_frame encrypt_at framed
encrypt_frame-cut c info mode front ci payload frame encrypted h m some_bytes e =
    rw
      (
        is_none-mode mode m,
        find_ci_offset-long frame (length payload) h.size,
        has_payload,
        h.head,
        h.tail,
        e,
      )
      refl
  where
    has_payload : leb (length frame) 11 ≡ false
    has_payload = ground (arith, h.size)

decrypt_frame-cut :
    (c : WmBusCrypto) (info : DeviceInfo) (mode : EncryptionMode)
    (front encrypted frame payload : List ℕ)
    → IsCut front (get_ci_for_mode mode) encrypted frame
    → IsUnauthenticated mode
    → 1 ≤ length encrypted
    → decrypt_payload mode c
        (derive_device_key c.master_key info.device_id info.manufacturer)
        encrypted
        frame
        info
      ≡ ok payload
    → decrypt_frame c frame info ≡ ok ((front ++ (get_ci_for_mode mode ∷ [])) ++ payload)
unfolding decrypt_frame decrypt_frame_with_effective_key decrypt_at framed
decrypt_frame-cut c info mode front encrypted frame payload h m some_bytes e =
    rw (long, find_ci_offset-long frame (length encrypted) h.size)
      (rw (h.ci_at, from_ci-mode mode m, is_none-mode mode m, has_payload, h.head_ci, h.tail, e)
        refl)
  where
    long : ltb (length frame) 11 ≡ false
    long = ground (arith, h.size)

    has_payload : leb (length frame) 11 ≡ false
    has_payload = ground (arith, h.size)

-- A frame of ten header bytes, a CI byte and a payload is encrypted in the modes 5 and 7 and in ELL into
-- a frame with the same header and the CI byte of the mode, which decrypts into the payload behind
-- this header and this CI byte. The block cipher undoes its encryption, the master key has 16
-- bytes, the payload is not empty, and the fields of the device are in their ranges.
pub decrypt_frame-encrypt_frame :
    (c : WmBusCrypto) (info : DeviceInfo) (mode : EncryptionMode) (front : List ℕ) (ci : ℕ)
    (payload : List ℕ)
    → IsCipher c.backend
    → IsBlock c.master_key
    → IsInfo info
    → IsUnauthenticated mode
    → length front ≡ 10
    → 1 ≤ length payload
    → All IsByte payload
    → (encrypted : List ℕ) × (encrypt_frame c (front ++ (ci ∷ payload)) info mode
        ≡ ok (front ++ (get_ci_for_mode mode ∷ encrypted)))
      × (decrypt_frame c (front ++ (get_ci_for_mode mode ∷ encrypted)) info
          ≡ ok (front ++ (get_ci_for_mode mode ∷ payload)))
decrypt_frame-encrypt_frame c info mode front ci payload cipher hm hinfo m size some_bytes hb =
    let key = derive_device_key c.master_key info.device_id info.manufacturer in
    let hk = derive_device_key-IsBlock c.master_key info.device_id info.manufacturer hm in
    let (encrypted, there, back, not_empty) =
      payload_round_trip c cipher info hinfo key hk mode payload m some_bytes hb in
    let ci' = get_ci_for_mode mode in
    (
      encrypted,
      encrypt_frame-cut c info mode front ci payload (front ++ (ci ∷ payload)) encrypted
            (cut front ci payload size) m some_bytes (there (front ++ (ci ∷ payload)))
          ∙ ap ok (append_assoc front (ci' ∷ []) encrypted),
      decrypt_frame-cut c info mode front encrypted (front ++ (ci' ∷ encrypted)) payload
            (cut front ci' encrypted size) m not_empty (back (front ++ (ci' ∷ encrypted)))
          ∙ ap ok (append_assoc front (ci' ∷ []) payload),
    )
