-- ===== src/Prelude/BitAt.antt =====
-- Single bits of the native numbers.
use Prim.Native.Nat.{ℕ, zero, suc, ◌+◌, ◌*◌, ◌/◌, ◌%◌, ◌^◌, max, bit_and, bit_or}
use mathlib.Core.Path.{◌≡◌, refl, sym, ap, ap₂, ◌∙◌}
use mathlib.Core.Logic.{◌≢◌, ◌⊎◌, inl, inr}
use native.Mathlib.Nat.{pow-suc, one-le-pow, div-add-mod, mul_comm, div-div-eq-div-mul}
use native.Mathlib.Omega.{arith}
use mbuscrate.Prelude.Bits.{bit_or_step, bit_and_bit}

-- The bit of weight `2 ^ k`.
abbrev pub bit_at : ℕ → ℕ → ℕ
bit_at k a = a / 2 ^ k % 2

pub bit_at-suc : (k a : ℕ) → bit_at (suc k) a ≡ bit_at k (a / 2)
bit_at-suc k a =
    ap (λ (w : ℕ). a / w % 2) (pow-suc 2 k ∙ mul_comm (2 ^ k) 2)
    ∙ ap (λ (q : ℕ). q % 2) (sym (div-div-eq-div-mul a 2 (2 ^ k)))

pub bit_at-bit_or : (k a b : ℕ) → bit_at k (bit_or a b) ≡ max (bit_at k a) (bit_at k b)
bit_at-bit_or zero a b = omega (arith, bit_or_step a b)
bit_at-bit_or (suc k) a b =
    bit_at-suc k (bit_or a b)
    ∙ ap (bit_at k) {x = bit_or a b / 2} {y = bit_or (a / 2) (b / 2)}
        (omega (arith, bit_or_step a b))
    ∙ bit_at-bit_or k (a / 2) (b / 2)
    ∙ ap₂ max (sym (bit_at-suc k a)) (sym (bit_at-suc k b))

pub bit_and-bit_at : (k a : ℕ) → bit_and a (2 ^ k) ≡ bit_at k a * 2 ^ k
bit_and-bit_at k a =
    ap (λ (t : ℕ). bit_and t (2 ^ k)) (sym whole)
    ∙ bit_and_bit k (a / 2 ^ k) (a % 2 ^ k) (omega (arith, one-le-pow k 2))
  where
    whole : a / 2 ^ k * 2 ^ k + a % 2 ^ k ≡ a
    whole = omega (arith, div-add-mod a (2 ^ k))

-- A power of two has one bit.
pub bit_at_pow : (k i : ℕ) → (bit_at k (2 ^ i) ≡ 1) × (k ≡ i) ⊎ (bit_at k (2 ^ i) ≡ 0) × (k ≢ i)
bit_at_pow zero zero = inl (refl, refl)
bit_at_pow zero (suc i) = inr (omega (arith, pow-suc 2 i), λ e. absurd (omega arith))
bit_at_pow (suc k) zero = inr (bit_at-suc k 1 ∙ zero_bit k, λ e. absurd (omega arith))
  where
    zero_bit : (k : ℕ) → bit_at k 0 ≡ 0
    zero_bit zero = refl
    zero_bit (suc k) = bit_at-suc k 0 ∙ zero_bit k
bit_at_pow (suc k) (suc i) =
    let half : 2 ^ suc i / 2 ≡ 2 ^ i = omega (arith, pow-suc 2 i) in
    let same : bit_at (suc k) (2 ^ suc i) ≡ bit_at k (2 ^ i) =
      bit_at-suc k (2 ^ suc i) ∙ ap (bit_at k) half in
    elim (bit_at_pow k i) [
      | inl (one, e) ↦ inl (same ∙ one, ap suc e)
      | inr (none, ne) ↦ inr (same ∙ none, λ e. ne (omega arith))
    ]
