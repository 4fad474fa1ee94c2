-- ===== src/Util/BitRev/Laws.antt =====
-- Bit reversal against the positions of bits, and its inverse.
use mbuscrate.Prelude.{
  ℕ, ◌+◌, ◌-◌, ◌*◌, ◌/◌, ◌%◌, ◌^◌, ◌<◌, ◌≡◌, refl, sym, ap, subst, ap₂, ◌∙◌, bit_and, bit_or, List,
  [], ◌∷◌, true, ◌==◌, ==_iff, arith, IsByte, IsU16, IsU32, All, ltb, Bool-cases, inl, inr,
  if◌then◌else◌,
}
use mbuscrate.Prelude.Bits.{all_below, all_below_sound, bit_and_low, bit_or_shifted}
use mbuscrate.Util.BitRev.{
  rev8, rev16, rev32, rev8_slice, rev8_vec, needs_reversal, wmbus_sync, normalize_sync,
}

rev8_byte_table : all_below 256 (λ x. ltb (rev8 x) 256) ≡ true
unfolding all_below rev8
rev8_byte_table = refl

pub rev8-IsByte : (x : ℕ) → IsByte x → IsByte (rev8 x)
rev8-IsByte x h = ground (arith, all_below_sound 256 (λ k. ltb (rev8 k) 256) x rev8_byte_table h)

rev8_twice_table : all_below 256 (λ x. rev8 (rev8 x) == x) ≡ true
unfolding all_below rev8
rev8_twice_table = refl

-- Reversing a byte twice gives it back.
pub rev8-rev8 : (x : ℕ) → IsByte x → rev8 (rev8 x) ≡ x
rev8-rev8 x h = (==_iff _ x).0 (all_below_sound 256 _ x rev8_twice_table h)

-- Bit `i` of a number.
abbrev pub bit : ℕ → ℕ → ℕ
bit x i = x / 2 ^ i % 2

rev8-bit_table : all_below 8 (λ i. all_below 256 (λ x. bit (rev8 x) i == bit x (7 - i))) ≡ true
unfolding all_below rev8
rev8-bit_table = refl

-- Bit `i` of the reversed byte is bit `7 - i` of the byte.
pub bit-rev8 : (x i : ℕ) → IsByte x → i < 8 → bit (rev8 x) i ≡ bit x (7 - i)
bit-rev8 x i hx hi = (==_iff _ _).0 (
    all_below_sound 256 (λ k. bit (rev8 k) i == bit k (7 - i)) x
      (all_below_sound 8 (λ j. all_below 256 (λ k. bit (rev8 k) j == bit k (7 - j))) i
        rev8-bit_table hi)
      hx)

-- `rev16` reverses each byte and swaps the two.
pub rev16-eq : (h l : ℕ) → IsByte h → IsByte l → rev16 (h * 2 ^ 8 + l) ≡ rev8 l * 2 ^ 8 + rev8 h
unfolding rev16
rev16-eq h l hh hl = rw (low, high, fits) (bit_or_shifted 8 (rev8 l) (rev8 h) (rev8-IsByte h hh))
  where
    low : bit_and (h * 2 ^ 8 + l) 0xFF % 2 ^ 8 ≡ l
    low = omega (arith, bit_and_low 8 (h * 2 ^ 8 + l))

    high : (h * 2 ^ 8 + l) / 2 ^ 8 % 2 ^ 8 ≡ h
    high = omega arith

    fits : rev8 l * 2 ^ 8 % 2 ^ 16 ≡ rev8 l * 2 ^ 8
    fits = omega (arith, rev8-IsByte l hl)

-- Reversing a word below 2 ^ 16 twice gives it back.
pub rev16-rev16 : (v : ℕ) → IsU16 v → rev16 (rev16 v) ≡ v
rev16-rev16 v hv =
    ap (λ (t : ℕ). rev16 (rev16 t)) (sym whole)
    ∙ ap rev16 (rev16-eq h l hh hl)
    ∙ rev16-eq (rev8 l) (rev8 h) (rev8-IsByte l hl) (rev8-IsByte h hh)
    ∙ omega (arith, rev8-rev8 h hh, rev8-rev8 l hl)
  where
    h : ℕ
    h = v / 2 ^ 8

    l : ℕ
    l = v % 2 ^ 8

    hh : IsByte (v / 2 ^ 8)
    hh = omega arith

    hl : IsByte (v % 2 ^ 8)
    hl = omega arith

    whole : v / 2 ^ 8 * 2 ^ 8 + v % 2 ^ 8 ≡ v
    whole = omega arith

-- A word of 32 bits from its bytes, highest first.
abbrev word32 : ℕ → ℕ → ℕ → ℕ → ℕ
word32 a b c d = ((a * 2 ^ 8 + b) * 2 ^ 8 + c) * 2 ^ 8 + d

bit_or-word32 :
    (a b c d : ℕ)
    → IsByte a
    → IsByte b
    → IsByte c
    → IsByte d
    → bit_or (bit_or (bit_or (a * 2 ^ 24 % 2 ^ 32) (b * 2 ^ 16 % 2 ^ 32)) (c * 2 ^ 8 % 2 ^ 32)) d
      ≡ word32 a b c d
bit_or-word32 a b c d ha hb hc hd =
    rw
      (
        fa,
        fb,
        fc,
        bit_or_shifted 24 a (b * 2 ^ 16) (omega arith),
        ab,
        bit_or_shifted 16 (a * 2 ^ 8 + b) (c * 2 ^ 8) (omega arith),
        abc,
      )
      (bit_or_shifted 8 ((a * 2 ^ 8 + b) * 2 ^ 8 + c) d hd)
  where
    fa : a * 2 ^ 24 % 2 ^ 32 ≡ a * 2 ^ 24
    fa = omega arith

    fb : b * 2 ^ 16 % 2 ^ 32 ≡ b * 2 ^ 16
    fb = omega arith

    fc : c * 2 ^ 8 % 2 ^ 32 ≡ c * 2 ^ 8
    fc = omega arith

    ab : a * 2 ^ 24 + b * 2 ^ 16 ≡ (a * 2 ^ 8 + b) * 2 ^ 16
    ab = omega arith

    abc : (a * 2 ^ 8 + b) * 2 ^ 16 + c * 2 ^ 8 ≡ ((a * 2 ^ 8 + b) * 2 ^ 8 + c) * 2 ^ 8
    abc = omega arith

-- `rev32` reverses each byte and the order of the bytes.
rev32-eq :
    (a b c d : ℕ)
    → IsByte a
    → IsByte b
    → IsByte c
    → IsByte d
    → rev32 (word32 a b c d) ≡ word32 (rev8 d) (rev8 c) (rev8 b) (rev8 a)
unfolding rev32
rev32-eq a b c d ha hb hc hd =
    rw (byte0, byte1, byte2, byte3)
      (bit_or-word32 (rev8 d) (rev8 c) (rev8 b) (rev8 a) (rev8-IsByte d hd) (rev8-IsByte c hc)
        (rev8-IsByte b hb) (rev8-IsByte a ha))
  where
    byte0 : bit_and (word32 a b c d) 0xFF % 2 ^ 8 ≡ d
    byte0 = omega (arith, bit_and_low 8 (word32 a b c d))

    byte1 : bit_and (word32 a b c d / 2 ^ 8) 0xFF % 2 ^ 8 ≡ c
    byte1 = omega (arith, bit_and_low 8 (word32 a b c d / 2 ^ 8))

    byte2 : bit_and (word32 a b c d / 2 ^ 16) 0xFF % 2 ^ 8 ≡ b
    byte2 = omega (arith, bit_and_low 8 (word32 a b c d / 2 ^ 16))

    byte3 : bit_and (word32 a b c d / 2 ^ 24) 0xFF % 2 ^ 8 ≡ a
    byte3 = omega (arith, bit_and_low 8 (word32 a b c d / 2 ^ 24))

rev32-word32_twice :
    (a b c d : ℕ)
    → IsByte a
    → IsByte b
    → IsByte c
    → IsByte d
    → rev32 (rev32 (word32 a b c d)) ≡ word32 a b c d
rev32-word32_twice a b c d ha hb hc hd =
    ap rev32 (rev32-eq a b c d ha hb hc hd)
    ∙ rev32-eq (rev8 d) (rev8 c) (rev8 b) (rev8 a) (rev8-IsByte d hd) (rev8-IsByte c hc)
        (rev8-IsByte b hb) (rev8-IsByte a ha)
    ∙ omega (arith, rev8-rev8 a ha, rev8-rev8 b hb, rev8-rev8 c hc, rev8-rev8 d hd)

-- Reversing a word below 2 ^ 32 twice gives it back.
pub rev32-rev32 : (v : ℕ) → IsU32 v → rev32 (rev32 v) ≡ v
rev32-rev32 v hv =
    subst (λ (t : ℕ). rev32 (rev32 t) ≡ t) whole
      (rev32-word32_twice (v / 2 ^ 24) (v / 2 ^ 16 % 2 ^ 8) (v / 2 ^ 8 % 2 ^ 8) (v % 2 ^ 8)
        (omega arith) (omega arith) (omega arith) (omega arith))
  where
    whole : word32 (v / 2 ^ 24) (v / 2 ^ 16 % 2 ^ 8) (v / 2 ^ 8 % 2 ^ 8) (v % 2 ^ 8) ≡ v
    whole = omega arith

-- The in-place loop and the copying version agree.
pub rev8_slice-eq-rev8_vec : (bytes : List ℕ) → rev8_slice bytes ≡ rev8_vec bytes
unfolding rev8_slice rev8_vec
rev8_slice-eq-rev8_vec [] = refl
rev8_slice-eq-rev8_vec (b ∷ bs) = ap (λ (r : List ℕ). rev8 b ∷ r) (rev8_slice-eq-rev8_vec bs)

-- Reversing every byte of a slice in place twice gives the slice back.
pub rev8_slice-rev8_slice :
    (bytes : List ℕ) → All IsByte bytes → rev8_slice (rev8_slice bytes) ≡ bytes
unfolding rev8_slice
rev8_slice-rev8_slice [] h = refl
rev8_slice-rev8_slice (b ∷ bs) h = ap₂ ◌∷◌ (rev8-rev8 b h.0) (rev8_slice-rev8_slice bs h.1)

-- `normalize_sync` reverses exactly the bytes that `needs_reversal` selects in the sync context,
-- and leaves every other byte alone.
pub normalize_sync_lem :
    (byte : ℕ) → normalize_sync byte ≡ (if needs_reversal byte wmbus_sync then rev8 byte else byte)
unfolding normalize_sync needs_reversal rev8
normalize_sync_lem byte = elim (Bool-cases (byte == 0xB3)) [
  | inl a ↦ rw (a, (==_iff byte 0xB3).0 a) refl
  | inr a ↦ elim (Bool-cases (byte == 0xBC)) [
    | inl b ↦ rw (a, b, (==_iff byte 0xBC).0 b) refl
    | inr b ↦ rw (a, b) refl
  ]
]
