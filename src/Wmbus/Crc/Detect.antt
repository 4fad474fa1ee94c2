-- ===== src/Wmbus/Crc/Detect.antt =====
-- What `verify_crc_be` accepts and what it detects.
use mbuscrate.Prelude.{
  ℕ, ◌+◌, ◌*◌, ◌%◌, ◌^◌, ◌≡◌, refl, sym, ap, subst, ◌∙◌, List, [], ◌∷◌, ◌++◌, bit_xor, arith, All,
  All-drop, IsByte, IsU16,
}
use mbuscrate.Prelude.Bits.{
  bit_xor-lt, bit_xor_assoc, bit_xor_cancel_left, bit_xor_cancel_right, bit_xor_join,
}
use mbuscrate.Wmbus.Crc.{crc_bits, crc_loop, calculate_wmbus_crc}
use mbuscrate.Wmbus.Crc.Linear.{crc_bits-bit_xor, crc_bits-IsU16, crc_bits_low, crc_bits_injective}
use mbuscrate.Wmbus.Crc.Serial.{
  reference_step, reference_step-IsU16, reference_loop, crc_loop-eq-reference_loop,
}

reference_loop-append :
    (rem : ℕ) (xs ys : List ℕ)
    → reference_loop rem (xs ++ ys) ≡ reference_loop (reference_loop rem xs) ys
unfolding reference_loop
reference_loop-append rem [] ys = refl
reference_loop-append rem (x ∷ xs) ys = reference_loop-append (reference_step rem x) xs ys

reference_loop-IsU16 : (rem : ℕ) (bytes : List ℕ) → IsU16 rem → IsU16 (reference_loop rem bytes)
unfolding reference_loop
reference_loop-IsU16 rem [] h = h
reference_loop-IsU16 rem (b ∷ bs) h =
    reference_loop-IsU16 (reference_step rem b) bs (reference_step-IsU16 rem b h)

reference_step_injective :
    (r s b : ℕ) → IsU16 r → IsU16 s → reference_step r b ≡ reference_step s b → r ≡ s
unfolding reference_step
reference_step_injective r s b hr hs e = bit_xor_cancel_right r s (b * 2 ^ 8 % 2 ^ 16) (
    crc_bits_injective 8 _ _ (bit_xor-lt 16 r _ hr (omega arith))
      (bit_xor-lt 16 s _ hs (omega arith)) e)

-- The register remembers where it started.
reference_loop_injective :
    (bytes : List ℕ) (r s : ℕ)
    → IsU16 r
    → IsU16 s
    → reference_loop r bytes ≡ reference_loop s bytes
    → r ≡ s
unfolding reference_loop
reference_loop_injective [] r s hr hs e = e
reference_loop_injective (b ∷ bs) r s hr hs e = reference_step_injective r s b hr hs (
    reference_loop_injective bs (reference_step r b) (reference_step s b)
      (reference_step-IsU16 r b hr) (reference_step-IsU16 s b hs) e)

-- Two bytes enter as one word of 16 bits.
reference_step_pair :
    (r a b : ℕ)
    → IsU16 r
    → IsByte a
    → IsByte b
    → reference_step (reference_step r a) b ≡ crc_bits 8 (crc_bits 8 (bit_xor r (a * 2 ^ 8 + b)))
unfolding reference_step
reference_step_pair r a b hr ha hb =
    rw (fits a ha, fits b hb)
      (ap (crc_bits 8) (
        ap (bit_xor (crc_bits 8 (bit_xor r (a * 2 ^ 8)))) (sym (crc_bits_low b hb))
        ∙ sym (
            crc_bits-bit_xor 8 (bit_xor r (a * 2 ^ 8)) b (bit_xor-lt 16 r _ hr (omega arith))
              (omega arith))
        ∙ ap (crc_bits 8) (bit_xor_assoc r (a * 2 ^ 8) b ∙ ap (bit_xor r) (bit_xor_join 8 a b hb))))
  where
    fits : (x : ℕ) → IsByte x → x * 2 ^ 8 % 2 ^ 16 ≡ x * 2 ^ 8
    fits x hx = omega arith

reference_step_pair_injective :
    (r a b c d : ℕ)
    → IsU16 r
    → IsByte a
    → IsByte b
    → IsByte c
    → IsByte d
    → reference_step (reference_step r a) b ≡ reference_step (reference_step r c) d
    → (a ≡ c) × (b ≡ d)
reference_step_pair_injective r a b c d hr ha hb hc hd e = omega (arith, words)
  where
    register : (x y : ℕ) → IsByte x → IsByte y → IsU16 (bit_xor r (x * 2 ^ 8 + y))
    register x y hx hy = bit_xor-lt 16 r _ hr (omega arith)

    words : a * 2 ^ 8 + b ≡ c * 2 ^ 8 + d
    words = bit_xor_cancel_left _ _ r (
        crc_bits_injective 8 _ _ (register a b ha hb) (register c d hc hd) (
          crc_bits_injective 8 _ _ (crc_bits-IsU16 8 _ (register a b ha hb))
            (crc_bits-IsU16 8 _ (register c d hc hd))
            (sym (reference_step_pair r a b hr ha hb) ∙ e ∙ reference_step_pair r c d hr hc hd)))

reference_loop_detects :
    (pre post : List ℕ) (a b c d : ℕ)
    → IsByte a
    → IsByte b
    → IsByte c
    → IsByte d
    → reference_loop 0 (pre ++ (a ∷ b ∷ post)) ≡ reference_loop 0 (pre ++ (c ∷ d ∷ post))
    → (a ≡ c) × (b ≡ d)
unfolding reference_loop
reference_loop_detects pre post a b c d ha hb hc hd e =
    reference_step_pair_injective r a b c d r16 ha hb hc hd (
      reference_loop_injective post _ _ (reference_step-IsU16 _ b (reference_step-IsU16 r a r16))
        (reference_step-IsU16 _ d (reference_step-IsU16 r c r16))
        (sym (reference_loop-append 0 pre (a ∷ b ∷ post))
          ∙ e
          ∙ reference_loop-append 0 pre (c ∷ d ∷ post)))
  where
    r : ℕ
    r = reference_loop 0 pre

    r16 : IsU16 r
    r16 = reference_loop-IsU16 0 pre (omega arith)

crc_loop-IsU16 : (bytes : List ℕ) → All IsByte bytes → IsU16 (crc_loop 0 bytes)
crc_loop-IsU16 bytes h =
    subst IsU16 (sym (crc_loop-eq-reference_loop 0 bytes (omega arith) h))
      (reference_loop-IsU16 0 bytes (omega arith))

-- Two byte strings that differ in at most two adjacent bytes and have one CRC are equal: every
-- error confined to two adjacent bytes changes the CRC.
pub calculate_wmbus_crc_detects :
    (pre post : List ℕ) (a b c d : ℕ)
    → All IsByte (pre ++ (a ∷ b ∷ post))
    → All IsByte (pre ++ (c ∷ d ∷ post))
    → calculate_wmbus_crc (pre ++ (a ∷ b ∷ post)) ≡ calculate_wmbus_crc (pre ++ (c ∷ d ∷ post))
    → (a ≡ c) × (b ≡ d)
unfolding calculate_wmbus_crc
calculate_wmbus_crc_detects pre post a b c d h k e =
    reference_loop_detects pre post a b c d (pairs h).0 (pairs h).1.0 (pairs k).0 (pairs k).1.0 (
      sym (crc_loop-eq-reference_loop 0 _ (omega arith) h)
      ∙ omega (arith, e, crc_loop-IsU16 _ h, crc_loop-IsU16 _ k)
      ∙ crc_loop-eq-reference_loop 0 _ (omega arith) k)
  where
    pairs : {x y : ℕ} → All IsByte (pre ++ (x ∷ y ∷ post)) → All IsByte (x ∷ y ∷ post)
    pairs q = All-drop IsByte pre _ q
