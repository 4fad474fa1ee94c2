-- ===== src/Wmbus/Crypto/Modes/Counter.antt =====
-- The counter of CTR mode.
use mbuscrate.Prelude.{
  ℕ, suc, ◌+◌, ◌*◌, ◌%◌, ◌^◌, ◌≤◌, ◌<◌, ◌≡◌, refl, sym, ap, ◌∙◌, List, [], ◌∷◌, length, arith, All,
  IsByte, Bool, true, false, ◌==◌, ==_iff, if◌then◌else◌, Bool-cases, inl, inr,
}
use native.Mathlib.Nat.{pow-suc, suc-mul, mul-le-mul_right, mod-eq_of_lt, add-mod_right}
use mbuscrate.Wmbus.Crypto.Modes.{increment_bytes, increment_counter}

-- The counter as a number, its first byte the highest.
unfoldable pub counter_value : List ℕ → ℕ
counter_value [] = 0
counter_value (b ∷ bs) = b * 256 ^ length bs + counter_value bs

carried : Bool → ℕ → ℕ
carried carry n = if carry then 256 ^ n else 0

-- One more byte in front, with the carry of the bytes behind it.
abbrev front_byte : ℕ → List ℕ × Bool → List ℕ × Bool
front_byte b rest =
    let next = (b + 1) % 2 ^ 8 in if rest.1 then (next ∷ rest.0, next == 0) else (b ∷ rest.0, false)

abbrev IsSuccessor : ℕ → ℕ → List ℕ × Bool → Type 0
IsSuccessor n value after =
    (counter_value after.0 + carried after.1 n ≡ value + 1)
    × (length after.0 ≡ n)
    × (counter_value after.0 < 256 ^ n)

at_most : (b : ℕ) → b < 256 → b ≤ 255
at_most b h = omega arith

front_byte-IsSuccessor :
    (b n value : ℕ) (low : List ℕ) (carry : Bool)
    → b < 256
    → IsSuccessor n value (low, carry)
    → IsSuccessor (suc n) (b * 256 ^ n + value) (front_byte b (low, carry))
unfolding counter_value carried
front_byte-IsSuccessor b n value low false hb (sum, size, small) = rw size (
  omega (arith, sum),
  refl,
  omega (arith, small, pow-suc 256 n, mul-le-mul_right (256 ^ n) (at_most b hb)),
)
front_byte-IsSuccessor b n value low true hb (sum, size, small) =
    elim (Bool-cases ((b + 1) % 256 == 0)) [
      | inl wraps ↦
          let last : b ≡ 255 = omega (arith, (==_iff ((b + 1) % 256) 0).0 wraps) in
          rw (wraps, size, (==_iff ((b + 1) % 256) 0).0 wraps, last)
            (omega (arith, sum, pow-suc 256 n), refl, omega (arith, small, pow-suc 256 n))
      | inr stays ↦
          let next : (b + 1) % 256 ≡ suc b = ground (arith, stays) in
          rw (stays, size, next)
            (
              omega (arith, sum, suc-mul b (256 ^ n)),
              refl,
              omega (
                arith,
                small,
                pow-suc 256 n,
                mul-le-mul_right (256 ^ n) (at_most (suc b) (omega (arith, next))),
              ),
            )
    ]

increment_bytes-IsSuccessor :
    (bs : List ℕ) → All IsByte bs → IsSuccessor (length bs) (counter_value bs) (increment_bytes bs)
unfolding increment_bytes counter_value carried
increment_bytes-IsSuccessor [] h = omega arith
increment_bytes-IsSuccessor (b ∷ bs) (hb, h) =
    front_byte-IsSuccessor b (length bs) (counter_value bs) (increment_bytes bs).0
      (increment_bytes bs).1 hb (increment_bytes-IsSuccessor bs h)

-- `increment_counter` adds one to the counter, read with its first byte the highest, and starts again at
-- zero after the largest value. The counter keeps its length.
pub increment_counter_lem :
    (counter : List ℕ)
    → All IsByte counter
    → (counter_value (increment_counter counter)
        ≡ (counter_value counter + 1) % 256 ^ length counter)
      × (length (increment_counter counter) ≡ length counter)
unfolding increment_counter carried
increment_counter_lem counter h =
    let (sum, size, small) = increment_bytes-IsSuccessor counter h in
    (
      wrapped (counter_value (increment_bytes counter).0) (counter_value counter)
          (256 ^ length counter) (increment_bytes counter).1 sum small,
      size,
    )
  where
    wrapped :
        (v w m : ℕ) (carry : Bool) → v + (if carry then m else 0) ≡ w + 1 → v < m → v ≡ (w + 1) % m
    wrapped v w m true e small =
        sym (mod-eq_of_lt small) ∙ sym (add-mod_right v m) ∙ ap (λ (x : ℕ). x % m) e
    wrapped v w m false e small =
        sym (mod-eq_of_lt small) ∙ ap (λ (x : ℕ). x % m) {x = v} {y = w + 1} (omega (arith, e))
