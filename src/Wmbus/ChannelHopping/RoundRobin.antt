-- ===== src/Wmbus/ChannelHopping/RoundRobin.antt =====
-- src/wmbus/radio/lora/channel_hopping.rs: the round robin ends, on a channel that is not blacklisted.
use mbuscrate.Prelude.{
  ℕ, zero, suc, ◌+◌, ◌≤◌, ◌<◌, ◌≡◌, ◌≢◌, ◌∙◌, refl, List, [], true, false, ◌==◌, length, ◌%◌, arith,
  Bool-cases, inl, inr, ◌⊎◌, Option, some, ==_iff,
}
use mbuscrate.Wmbus.ChannelHopping.{ChannelHopper, contains, round_robin, next_round_robin}
use mbuscrate.Wmbus.ChannelHopping.Pigeon.{pigeon}

-- The loop returns, at a channel that is not blacklisted.
abbrev pub IsFound : ChannelHopper → Option ChannelHopper → Type 0
IsFound h result =
    (after : ChannelHopper) × (result ≡ some after)
    × (after.channels ≡ h.channels)
    × (after.current_index < h.channels)
    × (contains after.blacklist after.current_index ≡ false)

-- The `k` channels after `c` of `n`, around the end, are blacklisted.
abbrev Covered : ℕ → ℕ → ℕ → List ℕ → Type 0
Covered k c n bs = (p : ℕ) → p < n → (c < p) × (p ≤ c + k) ⊎ (p + n ≤ c + k) → contains bs p ≡ true

next_lt : (c n : ℕ) → c < n → (c + 1) % n < n
next_lt c n small = grind arith

next-cases :
    (c n : ℕ) → c < n → (((c + 1) % n ≡ c + 1) × (c + 1 < n)) ⊎ (((c + 1) % n ≡ 0) × (c + 1 ≡ n))
next-cases c n small = grind arith

abbrev at : ℕ → ℕ → List ℕ → ChannelHopper
at n c bs = record { channels = n; current_index = c; blacklist = bs }

IsFound-next :
    (k n c : ℕ) (bs : List ℕ)
    → c < n
    → contains bs ((c + 1) % n) ≡ false
    → IsFound (at n c bs) (round_robin (suc k) (at n c bs))
unfolding round_robin
IsFound-next k n c bs small free =
    (at n ((c + 1) % n) bs, ground arith, refl, next_lt c n small, free)

round-skip :
    (k n c : ℕ) (bs : List ℕ)
    → contains bs ((c + 1) % n) ≡ true
    → length bs < n
    → round_robin (suc k) (at n c bs) ≡ round_robin k (at n ((c + 1) % n) bs)
unfolding round_robin
round-skip k n c bs listed few = ground arith

round-clear :
    (k n c : ℕ) (bs : List ℕ)
    → contains bs ((c + 1) % n) ≡ true
    → n ≤ length bs
    → round_robin (suc k) (at n c bs) ≡ round_robin k (at n ((c + 1) % n) [])
unfolding round_robin
round-clear k n c bs listed many = ground arith

one_further :
    (k n c m p : ℕ)
    → (m ≡ c + 1) × (c + 1 < n) ⊎ (m ≡ 0) × (c + 1 ≡ n)
    → p < n
    → p ≢ m
    → (c < p) × (p ≤ c + suc k) ⊎ (p + n ≤ c + suc k)
    → (m < p) × (p ≤ m + k) ⊎ (p + n ≤ m + k)
one_further k n c m p next inside differ reached = ground arith

IsFound-same : (h : ChannelHopper) (r s : Option ChannelHopper) → r ≡ s → IsFound h s → IsFound h r
IsFound-same h r s same found = (found.0, same ∙ found.1, found.2, found.3, found.4)

away_ne : (p m : ℕ) → (p == m) ≡ false → p ≢ m
away_ne p m away = ground arith

Covered-step :
    (k n c : ℕ) (bs : List ℕ)
    → c < n
    → contains bs ((c + 1) % n) ≡ true
    → Covered k ((c + 1) % n) n bs
    → Covered (suc k) c n bs
Covered-step k n c bs small listed rest p inside reached = elim (Bool-cases (p == (c + 1) % n)) [
  | inl here ↦ rw ((==_iff p ((c + 1) % n)).0 here) listed
  | inr away ↦ rest p inside (
      one_further k n c ((c + 1) % n) p (next-cases c n small) inside (away_ne p ((c + 1) % n) away)
        reached)
]

nothing_reached : (n c p : ℕ) → p < n → (c < p) × (p ≤ c + 0) ⊎ (p + n ≤ c + 0) → c < n → ⊥
nothing_reached n c p inside reached small = omega arith

le_or_lt : (m n : ℕ) → (m ≤ n) ⊎ (n < m)
le_or_lt m n = ground arith

progress :
    (k n c : ℕ) (bs : List ℕ)
    → c < n
    → length bs < n
    → IsFound (at n c bs) (round_robin k (at n c bs)) ⊎ Covered k c n bs
progress zero n c bs small few =
    inr (λ p inside reached. elim (nothing_reached n c p inside reached small) [ ])
progress (suc k) n c bs small few = elim (Bool-cases (contains bs ((c + 1) % n))) [
  | inr free ↦ inl (IsFound-next k n c bs small free)
  | inl listed ↦ elim (progress k n ((c + 1) % n) bs (next_lt c n small) few) [
    | inl found ↦ inl (
        IsFound-same (at n c bs) (round_robin (suc k) (at n c bs))
          (round_robin k (at n ((c + 1) % n) bs)) (round-skip k n c bs listed few) found)
    | inr covered ↦ inr (Covered-step k n c bs small listed covered)
  ]
]

all_reached : (k n c p : ℕ) → n ≤ k → c < n → p < n → (c < p) × (p ≤ c + k) ⊎ (p + n ≤ c + k)
all_reached k n c p round small inside = ground arith

Covered-all : (k n c : ℕ) (bs : List ℕ) → n ≤ k → c < n → Covered k c n bs → n ≤ length bs
Covered-all k n c bs round small covered =
    pigeon n bs (λ p inside. covered p inside (all_reached k n c p round small inside))

too_few : {a b : ℕ} → a < b → b ≤ a → ⊥
too_few few many = omega arith

-- A round of all channels is enough when some are not blacklisted.
IsFound-in_round :
    (k n c : ℕ) (bs : List ℕ)
    → n ≤ k
    → c < n
    → length bs < n
    → IsFound (at n c bs) (round_robin k (at n c bs))
IsFound-in_round k n c bs round small few = elim (progress k n c bs small few) [
  | inl found ↦ found
  | inr covered ↦ elim (too_few few (Covered-all k n c bs round small covered)) [ ]
]

IsFound-after :
    (n c : ℕ) (bs : List ℕ) → c < n → IsFound (at n c bs) (round_robin (suc n) (at n c bs))
IsFound-after n c bs small = elim (le_or_lt n (length bs)) [
  | inr few ↦ IsFound-in_round (suc n) n c bs (omega arith) small few
  | inl many ↦ elim (Bool-cases (contains bs ((c + 1) % n))) [
    | inr free ↦ IsFound-next n n c bs small free
    | inl listed ↦
        IsFound-same (at n c bs) (round_robin (suc n) (at n c bs))
          (round_robin n (at n ((c + 1) % n) [])) (round-clear n n c bs listed many)
          (IsFound-in_round n n ((c + 1) % n) [] (omega arith) (next_lt c n small) (omega arith))
  ]
]

-- On any blacklist, the fuel of one round of all channels and one more is enough: the round robin returns, at
-- one of the channels, that is not on the blacklist as the call leaves it.
pub next_round_robin_lem :
    (h : ChannelHopper) → h.current_index < h.channels → IsFound h (next_round_robin h)
unfolding next_round_robin
next_round_robin_lem h small = IsFound-after h.channels h.current_index h.blacklist small
