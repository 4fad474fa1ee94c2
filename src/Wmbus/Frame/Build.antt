-- ===== src/Wmbus/Frame/Build.antt =====
-- Frames that `build` makes: their CRC verifies, and they parse back.
use mbuscrate.Prelude.{
  ℕ, ◌+◌, ◌-◌, ◌/◌, ◌%◌, ◌^◌, ◌≤◌, ◌≡◌, refl, ap, ap₂, ◌∙◌, List, [], ◌∷◌, ◌++◌, true, false, not,
  ◌&&◌, ◌==◌, ltb, leb, length, length-append, take, take-append, drop-append, arith, inl, inr, ◌⊎◌,
  IsU16, IsU32, ok, from_le_bytes2, from_le_bytes4, ◌≢◌, get_or,
}
use mbuscrate.Wmbus.Crc.{calculate_wmbus_crc}
use mbuscrate.Wmbus.Crc.Verify.{read_crc_be-crc}
use mbuscrate.Wmbus.Frame.{
  WmBusFrame, is_encrypted_frame, is_application_ci, looks_like_full_frame, verify_wmbus_crc,
  add_wmbus_crc, parse_wmbus_frame, parse_full_frame, full_frame, payload_from, trailing_crc,
  unsigned, build,
}

pub length-add_wmbus_crc : (front : List ℕ) → length (add_wmbus_crc front) ≡ length front + 2
unfolding add_wmbus_crc
length-add_wmbus_crc front =
    length-append front (calculate_wmbus_crc front / 2 ^ 8 ∷ calculate_wmbus_crc front % 2 ^ 8 ∷ [])

-- A byte string with its CRC is cut apart where the CRC begins.
module _ (front : List ℕ) where
  abbrev crc_bytes : List ℕ
  crc_bytes = calculate_wmbus_crc front / 2 ^ 8 ∷ calculate_wmbus_crc front % 2 ^ 8 ∷ []

  crc_start : length (front ++ crc_bytes) - 2 ≡ length front
  crc_start = omega (arith, length-append front crc_bytes)

  pub trailing_crc-add : trailing_crc (add_wmbus_crc front) ≡ calculate_wmbus_crc front
  unfolding add_wmbus_crc
  trailing_crc-add = rw (crc_start, drop-append front crc_bytes) (read_crc_be-crc front)

  -- A frame with a byte at least verifies once its CRC has been added.
  pub verify_wmbus_crc-add : 1 ≤ length front → verify_wmbus_crc (add_wmbus_crc front) ≡ true
  unfolding verify_wmbus_crc add_wmbus_crc
  verify_wmbus_crc-add some_bytes =
      rw
        (
          long,
          crc_start,
          drop-append front crc_bytes,
          take-append front crc_bytes,
          read_crc_be-crc front,
        )
        same
    where
      long : ltb (length (front ++ crc_bytes)) 3 ≡ false
      long = ground (arith, length-append front crc_bytes)

      same : (calculate_wmbus_crc front == calculate_wmbus_crc front) ≡ true
      same = ground arith

-- The frame that `build` writes.
abbrev pub built : ℕ → ℕ → ℕ → ℕ → ℕ → ℕ → List ℕ → WmBusFrame
built c m a v t ci payload = record {
  length_field = 10 + length payload;
  control_field = c;
  manufacturer_id = m;
  device_address = a;
  version = v;
  device_type = t;
  control_info = ci;
  payload = payload;
  crc = calculate_wmbus_crc (unsigned c m a v t ci payload);
  encrypted = is_encrypted_frame c ci;
}

-- A manufacturer code that ends in 0x79 is told from a compact frame by the CI byte only.
abbrev pub IsClear : ℕ → ℕ → Type 0
IsClear m ci = (m % 2 ^ 8 ≢ 0x79) ⊎ (is_application_ci ci ≡ true)

-- What makes a byte string parse as a full frame.
parse_wmbus_frame-full :
    (raw : List ℕ)
    → 13 ≤ length raw
    → length raw ≡ get_or raw 0 0 + 3
    → verify_wmbus_crc raw ≡ true
    → (get_or raw 2 0 ≢ 0x79) ⊎ (is_application_ci (get_or raw 10 0) ≡ true)
    → parse_wmbus_frame raw ≡ ok (full_frame raw)
unfolding parse_wmbus_frame parse_full_frame looks_like_full_frame
parse_wmbus_frame-full raw long sized verified clear =
    rw (not_compact clear) (rw (enough, whole, verified) refl)
  where
    enough : ltb (length raw) 13 ≡ false
    enough = ground arith

    whole : (length raw == get_or raw 0 0 + 1 + 2) ≡ true
    whole = ground arith

    not_compact :
        (get_or raw 2 0 ≢ 0x79) ⊎ (is_application_ci (get_or raw 10 0) ≡ true)
        → (leb 7 (length raw)
            && get_or raw 2 0 == 0x79
            && not (
                leb 13 (length raw)
                && (length raw == get_or raw 0 0 + 3)
                && is_application_ci (get_or raw 10 0)))
          ≡ false
    not_compact (inl other) = ground arith
    not_compact (inr application) = rw application (ground arith)

module _ (c m a v t ci : ℕ) (payload : List ℕ) (small : length payload ≤ 245) where
  abbrev front : List ℕ
  front = unsigned c m a v t ci payload

  abbrev tail : List ℕ
  tail = crc_bytes front

  size : length (payload ++ tail) ≡ length payload + 2
  size = length-append payload tail

  full_frame-build :
      IsU16 m → IsU32 a → full_frame (add_wmbus_crc front) ≡ built c m a v t ci payload
  unfolding add_wmbus_crc
  full_frame-build hm ha =
      ap₂ (λ (n : ℕ) (w : ℕ × ℕ × List ℕ × ℕ). made n w.0 w.1 w.2 w.3) (omega arith)
        (tuple (from_le_bytes2 m hm) (from_le_bytes4 a ha) cut (trailing_crc-add front))
    where
      made : ℕ → ℕ → ℕ → List ℕ → ℕ → WmBusFrame
      made n m' a' p k = record {
        length_field = n;
        control_field = c;
        manufacturer_id = m';
        device_address = a';
        version = v;
        device_type = t;
        control_info = ci;
        payload = p;
        crc = k;
        encrypted = is_encrypted_frame c ci;
      }

      cut : payload_from 11 (add_wmbus_crc front) ≡ payload
      cut =
          ap (λ (n : ℕ). take n (payload ++ tail)) (omega (arith, size)) ∙ take-append payload tail

      tuple :
          {x x' y y' : ℕ} {p p' : List ℕ} {k k' : ℕ}
          → x ≡ x'
          → y ≡ y'
          → p ≡ p'
          → k ≡ k'
          → ◌≡◌ {A = ℕ × ℕ × List ℕ × ℕ} (x, y, p, k) (x', y', p', k')
      tuple p q r s = rw (p, q, r, s) refl

  -- A frame that `build` makes parses into its fields, where the manufacturer code and the address
  -- fit their words, the payload has at most 245 bytes, and a manufacturer code that ends in 0x79
  -- comes with an application CI byte.
  pub parse_wmbus_frame-build :
      IsU16 m
      → IsU32 a
      → IsClear m ci
      → parse_wmbus_frame (build c m a v t ci payload) ≡ ok (built c m a v t ci payload)
  unfolding build add_wmbus_crc
  parse_wmbus_frame-build hm ha clear =
      parse_wmbus_frame-full (add_wmbus_crc front) (omega (arith, size)) (omega (arith, size))
        (verify_wmbus_crc-add front (omega arith)) clear
      ∙ ap ok (full_frame-build hm ha)
