-- ===== src/Payload/Chains/Numbers.antt =====
-- The numbers that src/payload/data.rs reads from a chain and from data, against their descriptions.
use mbuscrate.Prelude.{
  ℕ, zero, suc, ◌+◌, ◌*◌, ◌/◌, ◌%◌, ◌^◌, ◌≤◌, ◌<◌, ◌≡◌, ap, ◌∙◌, List, [], ◌∷◌, length, arith, All,
  IsByte, from_le_bytes,
}
use native.Mathlib.Nat.{pow-suc}
use mbuscrate.Prelude.Bits.{bit_or_above}
use mbuscrate.Payload.Chains.{le_from, le_to_u64}

-- EN 13757-3: the lowest bit of the storage number is bit 6 of the DIF; each extension has four more.
abbrev pub nibbles : List ℕ → ℕ
nibbles [] = 0
nibbles (dife ∷ difes) = dife % 16 + 16 * nibbles difes

abbrev pub storage_number : List ℕ → ℕ
storage_number [] = 0
storage_number (dif ∷ difes) = dif / 64 % 2 + 2 * nibbles difes

pow8-suc : (i : ℕ) → 2 ^ (8 * (i + 1)) ≡ 256 * 2 ^ (8 * i)
pow8-suc i =
    ap (λ (n : ℕ). 2 ^ n) next
    ∙ omega (
      arith,
      pow-suc 2 k,
      pow-suc 2 (suc k),
      pow-suc 2 (suc (suc k)),
      pow-suc 2 (suc (suc (suc k))),
      pow-suc 2 (suc (suc (suc (suc k)))),
      pow-suc 2 (suc (suc (suc (suc (suc k))))),
      pow-suc 2 (suc (suc (suc (suc (suc (suc k)))))),
      pow-suc 2 (suc (suc (suc (suc (suc (suc (suc k))))))),
    )
  where
    k : ℕ
    k = 8 * i

    next : 8 * (i + 1) ≡ suc (suc (suc (suc (suc (suc (suc (suc k)))))))
    next = omega arith

small_pow : (i : ℕ) → i < 8 → 256 * 2 ^ (8 * i) ≤ 2 ^ 64
small_pow zero h = omega arith
small_pow (suc zero) h = omega arith
small_pow (suc (suc zero)) h = omega arith
small_pow (suc (suc (suc zero))) h = omega arith
small_pow (suc (suc (suc (suc zero)))) h = omega arith
small_pow (suc (suc (suc (suc (suc zero))))) h = omega arith
small_pow (suc (suc (suc (suc (suc (suc zero)))))) h = omega arith
small_pow (suc (suc (suc (suc (suc (suc (suc zero))))))) h = omega arith
small_pow (suc (suc (suc (suc (suc (suc (suc (suc i)))))))) h = absurd (omega arith)

byte_above : (b p acc : ℕ) → b < 256 → acc < p → b * p + acc < 256 * p
byte_above b p acc byte below = grind arith

spread : (acc b p n : ℕ) → b * p + acc + 256 * p * n ≡ acc + p * (b + 256 * n)
spread acc b p n = grind arith

-- A byte above what was read so far.
le_step :
    (i acc b : ℕ) (bs : List ℕ)
    → i < 8
    → acc < 2 ^ (8 * i)
    → b < 256
    → le_from i acc (b ∷ bs) ≡ le_from (i + 1) (b * 2 ^ (8 * i) + acc) bs
unfolding le_from
le_step i acc b bs small below byte =
    let fits : b * 2 ^ (8 * i) % 2 ^ 64 ≡ b * 2 ^ (8 * i) =
      omega (arith, byte_above b (2 ^ (8 * i)) acc byte below, small_pow i small) in
    rw fits (ap (λ (n : ℕ). le_from (i + 1) n bs) (bit_or_above (8 * i) b acc below))

le_from_lem :
    (i acc : ℕ) (bs : List ℕ)
    → i + length bs ≤ 8
    → acc < 2 ^ (8 * i)
    → All IsByte bs
    → le_from i acc bs ≡ acc + 2 ^ (8 * i) * from_le_bytes bs
unfolding le_from
le_from_lem i acc [] fits below bytes = omega arith
le_from_lem i acc (b ∷ bs) fits below (byte, bytes) =
    let p : ℕ = 2 ^ (8 * i) in
    le_step i acc b bs (omega arith) below byte
    ∙ le_from_lem (i + 1) (b * p + acc) bs (omega arith)
        (omega (arith, byte_above b p acc byte below, pow8-suc i)) bytes
    ∙ ap (λ (q : ℕ). b * p + acc + q * from_le_bytes bs) (pow8-suc i)
    ∙ spread acc b p (from_le_bytes bs)

-- Up to eight bytes are the number with the low byte first.
pub le_to_u64_lem : (bs : List ℕ) → length bs ≤ 8 → All IsByte bs → le_to_u64 bs ≡ from_le_bytes bs
unfolding le_to_u64
le_to_u64_lem bs fits bytes = le_from_lem 0 0 bs (omega arith) (omega arith) bytes ∙ omega arith
