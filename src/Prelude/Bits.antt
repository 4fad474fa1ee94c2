-- ===== src/Prelude/Bits.antt =====
-- The native bit operations as arithmetic. They mean a recursion on binary digits with fuel
-- (`bitwise`); the one-digit equations below drop the fuel, and each law is an induction on them.
use Prim.Native.Nat.{digits, bitwise, differ, bit_and-bitwise, bit_or-bitwise, bit_xor-bitwise}
use Prim.Native.Nat.{ℕ, zero, suc, ◌+◌, ◌-◌, ◌*◌, ◌/◌, ◌%◌, ◌^◌, ◌≤◌, ◌<◌, min, max}
use Prim.Native.Nat.{bit_and, bit_or, bit_xor}
use mathlib.Core.Path.{◌≡◌, refl, sym, ap, ap₂, ◌∙◌}
use mathlib.Core.Bool.{Bool, true, ◌&&◌}
use mathlib.Core.WellFounded
use native.Mathlib.Nat.{pow-suc, one-le-pow, div-add-mod}
use native.Mathlib.Omega.{arith}
use mbuscrate.Prelude.Order.{lt_wf}

-- Checking every value of a small range by evaluation.
unfoldable pub all_below : ℕ → (ℕ → Bool) → Bool
all_below zero p = true
all_below (suc n) p = p n && all_below n p

pub all_below_sound :
    (bound : ℕ) (test : ℕ → Bool) (k : ℕ) → all_below bound test ≡ true → k < bound → test k ≡ true
unfolding all_below
all_below_sound zero test k passed inside = absurd (omega arith)
all_below_sound (suc bound) test k passed inside = ground (arith, all_below_sound bound test k)

-- A digit-wise operation, given by what it does to a right operand alone and to two digits.
module _ (alone : ℕ → ℕ) (on_digits : ℕ → ℕ → ℕ) where
  -- One digit in front of the result on the remaining digits.
  abbrev before : ℕ → ℕ → ℕ → ℕ
  before x y higher = higher * 2 + on_digits (x % 2) (y % 2)

  -- Fuel beyond the left operand makes no difference.
  spare_fuel : (n x y : ℕ) → x ≤ n → digits alone on_digits n x y ≡ bitwise alone on_digits x y
  spare_fuel n =
      WellFounded.induction lt_wf
        {C = λ k. (x y : ℕ) → x ≤ k → digits alone on_digits k x y ≡ bitwise alone on_digits x y} n
        step
    where
      step :
          (k : ℕ)
          → ((m : ℕ)
              → m < k
              → (x y : ℕ) → x ≤ m
              → digits alone on_digits m x y ≡ bitwise alone on_digits x y)
          → (x y : ℕ) → x ≤ k
          → digits alone on_digits k x y ≡ bitwise alone on_digits x y
      step zero smaller zero y le = refl
      step zero smaller (suc x) y le = absurd (omega arith)
      step (suc k) smaller zero y le = refl
      step (suc k) smaller (suc x) y le = ap (before (suc x) y) (
          smaller k (omega arith) (suc x / 2) (y / 2) (omega arith)
          ∙ sym (smaller x (omega arith) (suc x / 2) (y / 2) (omega arith)))

  -- The equation for the lowest digit, where the operation agrees with it on zero.
  lowest_digit :
      ((y : ℕ) → alone y ≡ alone (y / 2) * 2 + on_digits 0 (y % 2))
      → (x y : ℕ)
      → bitwise alone on_digits x y ≡ before x y (bitwise alone on_digits (x / 2) (y / 2))
  lowest_digit at_zero zero y = at_zero y
  lowest_digit at_zero (suc x) y =
      ap (before (suc x) y) (spare_fuel x (suc x / 2) (y / 2) (omega arith))

pub bit_or_step : (a b : ℕ) → bit_or a b ≡ bit_or (a / 2) (b / 2) * 2 + max (a % 2) (b % 2)
bit_or_step a b = simp bit_or-bitwise (lowest_digit (λ y. y) max (λ y. omega arith) a b)

pub bit_and_step : (a b : ℕ) → bit_and a b ≡ bit_and (a / 2) (b / 2) * 2 + min (a % 2) (b % 2)
bit_and_step a b = simp bit_and-bitwise (lowest_digit (λ y. 0) min (λ y. omega arith) a b)

differ_digits : (x y : ℕ) → x < 2 → y < 2 → differ x y ≡ (x + y) % 2
differ_digits zero y p q = omega arith
differ_digits (suc zero) zero p q = refl
differ_digits (suc zero) (suc zero) p q = refl
differ_digits (suc zero) (suc (suc y)) p q = absurd (omega arith)
differ_digits (suc (suc x)) y p q = absurd (omega arith)

pub bit_xor_step : (a b : ℕ) → bit_xor a b ≡ bit_xor (a / 2) (b / 2) * 2 + (a % 2 + b % 2) % 2
bit_xor_step a b = simp bit_xor-bitwise (
    lowest_digit (λ y. y) differ (λ y. omega (arith, differ_digits 0 (y % 2))) a b
    ∙ ap (λ (d : ℕ). bitwise (λ y. y) differ (a / 2) (b / 2) * 2 + d)
        (differ_digits (a % 2) (b % 2) (omega arith) (omega arith)))

-- Induction from the half of a number to the number.
by_halving : (C : ℕ → Type 0) → C 0 → ((k : ℕ) → C (suc k / 2) → C (suc k)) → (a : ℕ) → C a
by_halving C at_zero from_half a = WellFounded.induction lt_wf {C = C} a go
  where
    go : (k : ℕ) → ((m : ℕ) → m < k → C m) → C k
    go zero below = at_zero
    go (suc k) below = from_half k (below (suc k / 2) (omega arith))

-- Exclusive or is an Abelian group in which every element is its own inverse.
pub zero-bit_xor : (b : ℕ) → bit_xor 0 b ≡ b
zero-bit_xor b = bit_xor-bitwise 0 b

pub bit_xor-zero : (a : ℕ) → bit_xor a 0 ≡ a
bit_xor-zero =
    by_halving (λ k. bit_xor k 0 ≡ k) refl (λ k half. omega (arith, bit_xor_step (suc k) 0, half))

pub bit_xor_self : (a : ℕ) → bit_xor a a ≡ 0
bit_xor_self =
    by_halving (λ k. bit_xor k k ≡ 0) refl
      (λ k half. omega (arith, bit_xor_step (suc k) (suc k), half))

xor_comm_fuel : (n a b : ℕ) → a ≤ n → b ≤ n → bit_xor a b ≡ bit_xor b a
xor_comm_fuel zero zero zero p q = refl
xor_comm_fuel zero (suc a) b p q = absurd (omega arith)
xor_comm_fuel zero zero (suc b) p q = absurd (omega arith)
xor_comm_fuel (suc n) a b p q = omega (
  arith,
  bit_xor_step a b,
  bit_xor_step b a,
  xor_comm_fuel n (a / 2) (b / 2) (omega arith) (omega arith),
)

pub bit_xor_comm : (a b : ℕ) → bit_xor a b ≡ bit_xor b a
bit_xor_comm a b = xor_comm_fuel (a + b) a b (omega arith) (omega arith)

xor_assoc_fuel :
    (n a b c : ℕ) → a ≤ n → b ≤ n → c ≤ n → bit_xor (bit_xor a b) c ≡ bit_xor a (bit_xor b c)
xor_assoc_fuel zero zero b c p q r = rw (zero-bit_xor b, zero-bit_xor (bit_xor b c))
xor_assoc_fuel zero (suc a) b c p q r = absurd (omega arith)
xor_assoc_fuel (suc n) a b c p q r =
    bit_xor_step (bit_xor a b) c
    ∙ (rw
        (
          half a b,
          half b c,
          xor_assoc_fuel n (a / 2) (b / 2) (c / 2) (omega arith) (omega arith) (omega arith),
        )
        (omega (arith, bit_xor_step a b, bit_xor_step b c)))
    ∙ sym (bit_xor_step a (bit_xor b c))
  where
    half : (x y : ℕ) → bit_xor x y / 2 ≡ bit_xor (x / 2) (y / 2)
    half x y = omega (arith, bit_xor_step x y)

pub bit_xor_assoc : (a b c : ℕ) → bit_xor (bit_xor a b) c ≡ bit_xor a (bit_xor b c)
bit_xor_assoc a b c = xor_assoc_fuel (a + b + c) a b c (omega arith) (omega arith) (omega arith)

shift_double : (value width : ℕ) → value * 2 ^ suc width ≡ 2 * (value * 2 ^ width)
shift_double value width = omega (arith, ap (◌*◌ value) (pow-suc 2 width))

-- Exclusive or works on the high part and on the `k` low bits apart.
pub bit_xor_fields :
    (k q r s t : ℕ)
    → r < 2 ^ k
    → t < 2 ^ k
    → bit_xor (q * 2 ^ k + r) (s * 2 ^ k + t) ≡ bit_xor q s * 2 ^ k + bit_xor r t
bit_xor_fields zero q r s t p h = ground arith
bit_xor_fields (suc k) q r s t p h =
    bit_xor_step (q * 2 ^ suc k + r) (s * 2 ^ suc k + t)
    ∙ rw (half q r, half s t, bit_xor_fields k q (r / 2) s (t / 2) (low r p) (low t h))
        (omega (
          arith,
          shift_double (bit_xor q s) k,
          shift_double q k,
          shift_double s k,
          bit_xor_step r t,
        ))
  where
    half : (x y : ℕ) → (x * 2 ^ suc k + y) / 2 ≡ x * 2 ^ k + y / 2
    half x y = omega (arith, shift_double x k)

    low : (y : ℕ) → y < 2 ^ suc k → y / 2 < 2 ^ k
    low y l = omega (arith, pow-suc 2 k)

-- The exclusive or of two words of `k` bits has `k` bits.
pub bit_xor-lt : (k a b : ℕ) → a < 2 ^ k → b < 2 ^ k → bit_xor a b < 2 ^ k
bit_xor-lt zero a b p q = ground (arith, bit_xor_step 0 0)
bit_xor-lt (suc k) a b p q = omega (
  arith,
  pow-suc 2 k,
  bit_xor_step a b,
  bit_xor-lt k (a / 2) (b / 2) (omega (arith, pow-suc 2 k)) (omega (arith, pow-suc 2 k)),
)

pub bit_or-zero : (a : ℕ) → bit_or a 0 ≡ a
bit_or-zero =
    by_halving (λ k. bit_or k 0 ≡ k) refl (λ k half. omega (arith, bit_or_step (suc k) 0, half))

-- `(q << k) | r` is a sum where `r` has `k` bits.
pub bit_or_shifted : (k q r : ℕ) → r < 2 ^ k → bit_or (q * 2 ^ k) r ≡ q * 2 ^ k + r
bit_or_shifted zero q r p = ground (arith, bit_or-zero q)
bit_or_shifted (suc k) q r p = omega (
  arith,
  bit_or_step (q * 2 ^ suc k) r,
  ap (λ (t : ℕ). bit_or t (r / 2)) half,
  shift_double q k,
  bit_or_shifted k q (r / 2) (omega (arith, pow-suc 2 k)),
)
  where
    half : q * 2 ^ suc k / 2 ≡ q * 2 ^ k
    half = omega (arith, shift_double q k)

pub zero-bit_or : (a : ℕ) → bit_or 0 a ≡ a
zero-bit_or =
    by_halving (λ k. bit_or 0 k ≡ k) refl (λ k half. omega (arith, bit_or_step 0 (suc k), half))

pub bit_or_above : (k q r : ℕ) → r < 2 ^ k → bit_or r (q * 2 ^ k) ≡ q * 2 ^ k + r
bit_or_above zero q r p = ground (arith, zero-bit_or q)
bit_or_above (suc k) q r p = omega (
  arith,
  bit_or_step r (q * 2 ^ suc k),
  ap (λ (t : ℕ). bit_or (r / 2) t) half,
  shift_double q k,
  bit_or_above k q (r / 2) (omega (arith, pow-suc 2 k)),
)
  where
    half : q * 2 ^ suc k / 2 ≡ q * 2 ^ k
    half = omega (arith, shift_double q k)

pub bit_and-zero : (a : ℕ) → bit_and a 0 ≡ 0
bit_and-zero =
    by_halving (λ k. bit_and k 0 ≡ 0) refl (λ k half. omega (arith, bit_and_step (suc k) 0, half))

masked_field : (k q r : ℕ) → r < 2 ^ k → bit_and (q * 2 ^ k + r) (2 ^ k - 1) ≡ r
masked_field zero q r p = omega (arith, bit_and-zero (q * 1 + r))
masked_field (suc k) q r p =
    bit_and_step (q * 2 ^ suc k + r) (2 ^ suc k - 1)
    ∙ rw (half, mask, masked_field k q (r / 2) (omega (arith, pow-suc 2 k)))
        (omega (arith, pow-suc 2 k, one-le-pow k 2, shift_double q k))
  where
    half : (q * 2 ^ suc k + r) / 2 ≡ q * 2 ^ k + r / 2
    half = omega (arith, shift_double q k)

    mask : (2 ^ suc k - 1) / 2 ≡ 2 ^ k - 1
    mask = omega (arith, pow-suc 2 k)

-- A mask of `k` low bits is a remainder.
pub bit_and_low : (k a : ℕ) → bit_and a (2 ^ k - 1) ≡ a % 2 ^ k
bit_and_low k a =
    ap (λ (t : ℕ). bit_and t (2 ^ k - 1)) (sym (div-mul-add-mod a (2 ^ k)))
    ∙ masked_field k (a / 2 ^ k) (a % 2 ^ k) (omega (arith, one-le-pow k 2))
  where
    div-mul-add-mod : (x m : ℕ) → x / m * m + x % m ≡ x
    div-mul-add-mod x m = omega (arith, div-add-mod x m)

bit_and-one : (a : ℕ) → bit_and a 1 ≡ a % 2
bit_and-one a = omega (arith, bit_and_step a 1, bit_and-zero (a / 2))

-- A test of the bit above `k` low bits.
pub bit_and_bit : (k p r : ℕ) → r < 2 ^ k → bit_and (p * 2 ^ k + r) (2 ^ k) ≡ p % 2 * 2 ^ k
bit_and_bit zero p r h = bit_and-one (p * 1 + r) ∙ omega arith
bit_and_bit (suc k) p r h =
    bit_and_step (p * 2 ^ suc k + r) (2 ^ suc k)
    ∙ rw (half, mask, bit_and_bit k p (r / 2) (omega (arith, pow-suc 2 k)))
        (omega (arith, shift_double (p % 2) k, pow-suc 2 k))
  where
    half : (p * 2 ^ suc k + r) / 2 ≡ p * 2 ^ k + r / 2
    half = omega (arith, shift_double p k)

    mask : 2 ^ suc k / 2 ≡ 2 ^ k
    mask = omega (arith, pow-suc 2 k)

pub bit_xor_middle :
    (a b c d : ℕ) → bit_xor (bit_xor a b) (bit_xor c d) ≡ bit_xor (bit_xor a c) (bit_xor b d)
bit_xor_middle a b c d =
    bit_xor_assoc a b (bit_xor c d)
    ∙ ap (bit_xor a) (
        sym (bit_xor_assoc b c d)
        ∙ ap (λ (t : ℕ). bit_xor t d) (bit_xor_comm b c)
        ∙ bit_xor_assoc c b d)
    ∙ sym (bit_xor_assoc a c (bit_xor b d))

pub bit_xor-mul_two : (a b : ℕ) → bit_xor (a * 2) (b * 2) ≡ bit_xor a b * 2
bit_xor-mul_two a b = omega (arith, bit_xor_step (a * 2) (b * 2), ap₂ bit_xor (half a) (half b))
  where
    half : (x : ℕ) → x * 2 / 2 ≡ x
    half x = omega arith

-- Two words with no difference are equal.
pub eq_of_bit_xor : (a b : ℕ) → bit_xor a b ≡ 0 → a ≡ b
eq_of_bit_xor a b h =
    sym (bit_xor-zero a)
    ∙ ap (bit_xor a) (sym (bit_xor_self b))
    ∙ sym (bit_xor_assoc a b b)
    ∙ ap (λ (t : ℕ). bit_xor t b) h
    ∙ zero-bit_xor b

-- Disjoint fields join by a sum.
pub bit_xor_join : (k x l : ℕ) → l < 2 ^ k → bit_xor (x * 2 ^ k) l ≡ x * 2 ^ k + l
bit_xor_join k x l h =
    ap₂ bit_xor (sym pad) (sym none_above)
    ∙ bit_xor_fields k x 0 0 l (one-le-pow k 2 (omega arith)) h
    ∙ omega (arith, ap (λ (t : ℕ). t * 2 ^ k) (bit_xor-zero x), zero-bit_xor l)
  where
    pad : x * 2 ^ k + 0 ≡ x * 2 ^ k
    pad = omega arith

    none_above : 0 * 2 ^ k + l ≡ l
    none_above = omega arith

bit_xor_undo : (a c : ℕ) → bit_xor (bit_xor a c) c ≡ a
bit_xor_undo a c = bit_xor_assoc a c c ∙ ap (bit_xor a) (bit_xor_self c) ∙ bit_xor-zero a

pub bit_xor_cancel_right : (a b c : ℕ) → bit_xor a c ≡ bit_xor b c → a ≡ b
bit_xor_cancel_right a b c h =
    sym (bit_xor_undo a c) ∙ ap (λ (t : ℕ). bit_xor t c) h ∙ bit_xor_undo b c

pub bit_xor_cancel_left : (a b c : ℕ) → bit_xor c a ≡ bit_xor c b → a ≡ b
bit_xor_cancel_left a b c h = bit_xor_cancel_right a b c (bit_xor_comm a c ∙ h ∙ bit_xor_comm c b)
