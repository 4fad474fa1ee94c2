-- ===== src/Wmbus/ChannelHopping/Pigeon.antt =====
-- A blacklist of fewer entries than channels misses a channel.
use mbuscrate.Prelude.{ℕ, zero, suc, ◌≤◌, ◌<◌, ◌≡◌, ◌≢◌, refl, List, [], ◌∷◌, true, length, arith}
use mbuscrate.Wmbus.ChannelHopping.{contains, retain_ne}

pub length-retain_ne : (i : ℕ) (bs : List ℕ) → length (retain_ne i bs) ≤ length bs
length-retain_ne i [] = omega arith
length-retain_ne i (b ∷ bs) = ground (arith, length-retain_ne i bs)

length-retain_ne_lt :
    (i : ℕ) (bs : List ℕ) → contains bs i ≡ true → length (retain_ne i bs) < length bs
length-retain_ne_lt i [] h = cc
length-retain_ne_lt i (b ∷ bs) h = ground (arith, length-retain_ne i bs, length-retain_ne_lt i bs)

contains-retain_ne : (i j : ℕ) (bs : List ℕ) → i ≢ j → contains (retain_ne i bs) j ≡ contains bs j
contains-retain_ne i j [] h = refl
contains-retain_ne i j (b ∷ bs) h = ground (arith, contains-retain_ne i j bs)

pub pigeon : (n : ℕ) (bs : List ℕ) → ((j : ℕ) → j < n → contains bs j ≡ true) → n ≤ length bs
pigeon zero bs h = omega arith
pigeon (suc n) bs h = omega (
  arith,
  length-retain_ne_lt n bs (h n (omega arith)),
  pigeon n (retain_ne n bs) (λ j small. rest j small),
)
  where
    rest : (j : ℕ) → j < n → contains (retain_ne n bs) j ≡ true
    rest j small = ground (arith, contains-retain_ne n j bs, h j)
