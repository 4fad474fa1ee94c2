-- ===== src/Wmbus/Crypto/Modes/Tests.antt =====
-- The theorems on chains, padding and the counter at concrete inputs.
use mbuscrate.Prelude.{ℕ, suc, ◌≡◌, List, [], ◌∷◌, ◌++◌, ◌<◌, ◌↔◌, replicate, ok}
use mbuscrate.Wmbus.Crypto.Modes.{pkcs7_unpad}
use mbuscrate.Wmbus.Crypto.Modes.Padding.{pkcs7_unpad_iff}

abbrev key : List ℕ
key = 1 ∷ 2 ∷ 3 ∷ 4 ∷ 5 ∷ 6 ∷ 7 ∷ 8 ∷ 9 ∷ 10 ∷ 11 ∷ 12 ∷ 13 ∷ 14 ∷ 15 ∷ 16 ∷ []

-- A carry out of two bytes.
abbrev counter : List ℕ
counter = 7 ∷ 0 ∷ 0 ∷ 0 ∷ 0 ∷ 0 ∷ 0 ∷ 0 ∷ 0 ∷ 0 ∷ 0 ∷ 0 ∷ 0 ∷ 1 ∷ 255 ∷ 255 ∷ []

pkcs7_unpad_iff_example :
    (pkcs7_unpad (1 ∷ 2 ∷ 2 ∷ []) ≡ ok (1 ∷ []))
    ↔ ((n : ℕ) × (n < 16) × (1 ∷ 2 ∷ 2 ∷ [] ≡ (1 ∷ []) ++ replicate (suc n) (suc n)))
pkcs7_unpad_iff_example = pkcs7_unpad_iff (1 ∷ 2 ∷ 2 ∷ []) (1 ∷ [])
