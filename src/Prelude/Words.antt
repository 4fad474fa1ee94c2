-- ===== src/Prelude/Words.antt =====
-- Ranges of machine words, predicates on every element of a list, and byte order.
use Prim.Native.Nat.{ℕ, zero, suc, ◌+◌, ◌*◌, ◌/◌, ◌%◌, ◌^◌, ◌<◌}
use mathlib.Core.List.{List, [], ◌∷◌, ◌++◌}
use mathlib.Core.Path.{◌≡◌}
use mathlib.Core.Bool.{Bool, true, ◌&&◌}
use native.Mathlib.Omega.{arith}
use mbuscrate.Prelude.Tests.{ltb}

abbrev pub IsByte : ℕ → Type 0
IsByte b = b < 2 ^ 8

abbrev pub IsU16 : ℕ → Type 0
IsU16 w = w < 2 ^ 16

abbrev pub IsU32 : ℕ → Type 0
IsU32 w = w < 2 ^ 32

abbrev pub All {ℓ κ} : {A : Type ℓ} → (A → Type κ) → List A → Type κ
All P [] = Unit
All P (x ∷ xs) = P x × All P xs

pub All-append {ℓ κ} :
    {A : Type ℓ} (P : A → Type κ) (xs ys : List A) → All P xs → All P ys → All P (xs ++ ys)
All-append P [] ys h k = k
All-append P (x ∷ xs) ys h k = (h.0, All-append P xs ys h.1 k)

pub All-drop {ℓ κ} : {A : Type ℓ} (P : A → Type κ) (xs ys : List A) → All P (xs ++ ys) → All P ys
All-drop P [] ys h = h
All-drop P (x ∷ xs) ys h = All-drop P xs ys h.1

pub All-take {ℓ κ} : {A : Type ℓ} (P : A → Type κ) (xs ys : List A) → All P (xs ++ ys) → All P xs
All-take P [] ys h = tt
All-take P (x ∷ xs) ys h = (h.0, All-take P xs ys h.1)

-- The range of concrete bytes, by evaluation.
abbrev pub all_bytes : List ℕ → Bool
all_bytes [] = true
all_bytes (b ∷ bs) = ltb b 256 && all_bytes bs

pub IsByte-All : (bs : List ℕ) → all_bytes bs ≡ true → All IsByte bs
IsByte-All [] h = tt
IsByte-All (b ∷ bs) h = (ground arith, IsByte-All bs (ground arith))

-- `to_le_bytes` of a word of `n` bytes, and `from_le_bytes`.
abbrev pub to_le_bytes : ℕ → ℕ → List ℕ
to_le_bytes zero w = []
to_le_bytes (suc n) w = w % 2 ^ 8 ∷ to_le_bytes n (w / 2 ^ 8)

abbrev pub from_le_bytes : List ℕ → ℕ
from_le_bytes [] = 0
from_le_bytes (b ∷ bs) = b + 2 ^ 8 * from_le_bytes bs

pub from_le_bytes4 : (w : ℕ) → IsU32 w → from_le_bytes (to_le_bytes 4 w) ≡ w
from_le_bytes4 w h = omega arith

pub from_le_bytes2 : (w : ℕ) → IsU16 w → from_le_bytes (to_le_bytes 2 w) ≡ w
from_le_bytes2 w h = omega arith
