-- ===== src/Wmbus/Crypto/Gcm/Authenticated.antt =====
-- Mode 9 with the authenticated cipher of the crate.
use mbuscrate.Prelude.{
  Bool, suc, ◌*◌, ◌/◌, Result, err, false, ℕ, ◌+◌, ◌-◌, ◌%◌, ◌≡◌, refl, sym, ap, ◌∙◌, ◌↔◌, List, [],
  ◌∷◌, ◌++◌, append-nil, true, ◌==◌, ltb, leb, if◌then◌else◌, length, get_or, take, drop,
  take-append-drop, ok, some, arith, length-drop,
}
use mbuscrate.Prelude.Bits.{bit_and_low}
use mbuscrate.Wmbus.Crypto.{
  Aead, DeviceInfo, WmBusCrypto, mode9_gcm, get_ci_for_mode, build_gcm_aad, build_gcm_iv,
  add_crc_to_plaintext, calculate_crc16, CryptoError, decryption_failed,
}
use mbuscrate.Wmbus.Crypto.Cut.{cut}
use mbuscrate.Wmbus.Crypto.Gcm.{
  aes_gcm_decrypt, aes_gcm_encrypt, opened, sealed, checked, and_checked, decrypt_with_aad,
  decrypt_gcm_mode, with_tag, encrypt_with_aad, encrypt_gcm_mode,
}

-- What is relied on: encryption succeeds and appends 16 bytes, and decryption with the same key, nonce and
-- associated data gives the message back.
pub record IsAead (aead : Aead) : Type 0 where
  pub encrypts :
      (key iv aad message : List ℕ)
      → (combined : List ℕ) × (aead.encrypt key iv aad message ≡ some combined)
        × (length combined ≡ length message + 16)
        × (aead.decrypt key iv aad combined ≡ some message)

-- What is encrypted in mode 9: the plaintext, and its CRC with the low byte first, if one is added.
abbrev pub sealed_text : WmBusCrypto → List ℕ → List ℕ
sealed_text c plaintext =
    if c.add_crc_mode9
    then plaintext ++ (calculate_crc16 plaintext % 256 ∷ calculate_crc16 plaintext / 256 % 256 ∷ [])
    else plaintext

-- The test of a CRC, low byte first, in the first two bytes, where there are two.
abbrev pub front_crc_verified : Bool → List ℕ → Result CryptoError (List ℕ)
front_crc_verified true (low ∷ high ∷ rest) =
    if low + 256 * high == calculate_crc16 rest then ok rest else err decryption_failed
front_crc_verified true (b ∷ []) = ok (b ∷ [])
front_crc_verified true [] = ok []
front_crc_verified false bytes = ok bytes

checked-eq :
    (verify : Bool) (bytes : List ℕ) → checked verify bytes ≡ front_crc_verified verify bytes
unfolding checked
checked-eq true [] = refl
checked-eq true (b ∷ []) = refl
checked-eq true (low ∷ high ∷ rest) = rw (long rest) (
    ap (λ (crc : ℕ). if crc == calculate_crc16 rest then ok rest else err decryption_failed)
      (same_word low high))
  where
    long : (bs : List ℕ) → leb 2 (suc (suc (length bs))) ≡ true
    long bs = ground arith

    same_word : (l h : ℕ) → l + 256 * (h + 256 * 0) ≡ l + 256 * h
    same_word l h = omega arith
checked-eq false bytes = refl

-- With tags of 16 bytes, and a header with the same associated data on both sides, what mode 9 encrypts
-- decrypts into the plaintext, with its CRC behind it if one is added; if a CRC is to be verified,
-- it is looked for in the first two bytes. The cipher undoes its encryption.
pub decrypt_gcm_mode-encrypt_gcm_mode :
    (c : WmBusCrypto) (aead : Aead) (info : DeviceInfo)
    (key plaintext frame encrypted_frame aad : List ℕ)
    → c.aead ≡ some aead
    → IsAead aead
    → c.full_tag_compatibility ≡ true
    → build_gcm_aad frame ≡ ok aad
    → build_gcm_aad encrypted_frame ≡ ok aad
    → (encrypted : List ℕ) × (encrypt_gcm_mode c key plaintext frame info ≡ ok encrypted)
      × (decrypt_gcm_mode c key encrypted encrypted_frame info
          ≡ front_crc_verified c.verify_crc_mode9 (sealed_text c plaintext))
unfolding encrypt_gcm_mode encrypt_with_aad with_tag aes_gcm_encrypt sealed decrypt_gcm_mode
    decrypt_with_aad aes_gcm_decrypt opened and_checked add_crc_to_plaintext
decrypt_gcm_mode-encrypt_gcm_mode c aead info key plaintext frame encrypted_frame aad has law full
      same same' =
    let (combined, seals, size, opens) =
      law.encrypts key (build_gcm_iv info) aad (sealed_text c plaintext) in
    let whole : take (length combined - 16) combined ++ drop (length combined - 16) combined
        ≡ combined =
      take-append-drop (length combined - 16) combined in
    let tag_size : (length (drop (length combined - 16) combined) == 12) ≡ false =
      ground (arith, size, length-drop (length combined - 16) combined) in
    let some_tag : ltb (length combined) 12 ≡ false = ground (arith, size) in
    let full_tag : leb 16 (length combined) ≡ true = ground (arith, size) in
    (
      combined,
      rw (same, has) (rw (seals, full) (ap ok whole)),
      rw (some_tag, same')
          (rw (full_tag, full, has)
            (rw (tag_size, append-nil (drop (length combined - 16) combined))
              (rw (whole, opens) (checked-eq c.verify_crc_mode9 (sealed_text c plaintext))))),
    )

build_gcm_aad-cut :
    (front : List ℕ) (ci : ℕ) (payload : List ℕ)
    → length front ≡ 10
    → build_gcm_aad (front ++ (ci ∷ payload)) ≡ ok (front ++ (ci % 16 ∷ []))
unfolding build_gcm_aad
build_gcm_aad-cut front ci payload size =
    let h = cut front ci payload size in
    let long : ltb (length (front ++ (ci ∷ payload))) 11 ≡ false = ground (arith, h.size) in
    rw (long, h.head, h.ci_at) (ap (λ (x : ℕ). ok (front ++ (x ∷ []))) (bit_and_low 4 ci))

-- The associated data of a frame of ten header bytes, a CI byte and a payload is that of the frame with the
-- CI byte of mode 9 in its place exactly if the low four bits of the CI byte are 9.
pub build_gcm_aad_iff :
    (front : List ℕ) (ci : ℕ) (payload encrypted : List ℕ)
    → length front ≡ 10
    → (build_gcm_aad (front ++ (ci ∷ payload))
        ≡ build_gcm_aad (front ++ (get_ci_for_mode mode9_gcm ∷ encrypted)))
      ↔ (ci % 16 ≡ 9)
unfolding get_ci_for_mode
build_gcm_aad_iff front ci payload encrypted size = (forth, back)
  where
    plain : build_gcm_aad (front ++ (ci ∷ payload)) ≡ ok (front ++ (ci % 16 ∷ []))
    plain = build_gcm_aad-cut front ci payload size

    sent : build_gcm_aad (front ++ (0x89 ∷ encrypted)) ≡ ok (front ++ (9 ∷ []))
    sent = build_gcm_aad-cut front 0x89 encrypted size

    forth :
        build_gcm_aad (front ++ (ci ∷ payload)) ≡ build_gcm_aad (front ++ (0x89 ∷ encrypted))
        → ci % 16 ≡ 9
    forth e =
        let same : front ++ (ci % 16 ∷ []) ≡ front ++ (9 ∷ []) = cc (plain, sent, e) in
        sym ((cut front (ci % 16) [] size).ci_at)
        ∙ ap (λ (bs : List ℕ). get_or bs 10 0) same
        ∙ (cut front 9 [] size).ci_at

    back :
        ci % 16 ≡ 9
        → build_gcm_aad (front ++ (ci ∷ payload)) ≡ build_gcm_aad (front ++ (0x89 ∷ encrypted))
    back e = plain ∙ ap (λ (x : ℕ). ok (front ++ (x ∷ []))) e ∙ sym sent
