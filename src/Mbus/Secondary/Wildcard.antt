-- ===== src/Mbus/Secondary/Wildcard.antt =====
-- Wildcard patterns and the addresses that match them.
use mbuscrate.Prelude.{
  ℕ, zero, suc, ◌≡◌, refl, List, [], ◌∷◌, true, ◌==◌, ==_iff, Bool-cases, inl, inr, ◌⊎◌, ◌↔◌, set,
}
use mbuscrate.Mbus.Secondary.{
  SecondaryAddress, to_bytes, matches, matches_wildcard, put_wildcards, to_wildcard_pattern,
}

-- Each byte of the pattern is the wildcard or the byte of the address.
unfoldable pub Covers : List ℕ → List ℕ → Type 0
Covers [] bytes = Unit
Covers (p ∷ ps) [] = Unit
Covers (p ∷ ps) (b ∷ bs) = ((p ≡ 0xF) ⊎ (p ≡ b)) × Covers ps bs

matches-Covers : (ps bs : List ℕ) → matches ps bs ≡ true → Covers ps bs
unfolding Covers
matches-Covers [] bs h = tt
matches-Covers (p ∷ ps) [] h = tt
matches-Covers (p ∷ ps) (b ∷ bs) h = elim (Bool-cases (p == 0xF)) [
  | inl wild ↦ (inl ((==_iff p 0xF).0 wild), matches-Covers ps bs (rw wild at h))
  | inr tame ↦ elim (Bool-cases (p == b)) [
    | inl same ↦ (inr ((==_iff p b).0 same), matches-Covers ps bs (rw (tame, same) at h))
    | inr differs ↦ cc (rw (tame, differs) at h)
  ]
]

Covers-matches : (ps bs : List ℕ) → Covers ps bs → matches ps bs ≡ true
unfolding Covers
Covers-matches [] bs c = refl
Covers-matches (p ∷ ps) [] c = refl
Covers-matches (p ∷ ps) (b ∷ bs) (inl wild, c) = rw wild (Covers-matches ps bs c)
Covers-matches (p ∷ ps) (b ∷ bs) (inr same, c) = elim (Bool-cases (p == 0xF)) [
  | inl wild ↦ rw wild (Covers-matches ps bs c)
  | inr tame ↦ rw (tame, (==_iff p b).1 same) (Covers-matches ps bs c)
]

self-Covers : (bs : List ℕ) → Covers bs bs
unfolding Covers
self-Covers [] = tt
self-Covers (b ∷ bs) = (inr refl, self-Covers bs)

set-Covers : (ps bs : List ℕ) (i : ℕ) → Covers ps bs → Covers (set ps i 0xF) bs
unfolding Covers
set-Covers [] bs i c = tt
set-Covers (p ∷ ps) [] zero c = tt
set-Covers (p ∷ ps) [] (suc i) c = tt
set-Covers (p ∷ ps) (b ∷ bs) zero (here, c) = (inl refl, c)
set-Covers (p ∷ ps) (b ∷ bs) (suc i) (here, c) = (here, set-Covers ps bs i c)

put_wildcards-Covers :
    (positions ps bs : List ℕ) → Covers ps bs → Covers (put_wildcards ps positions) bs
put_wildcards-Covers [] ps bs c = c
put_wildcards-Covers (i ∷ positions) ps bs c =
    put_wildcards-Covers positions (set ps i 0xF) bs (set-Covers ps bs i c)

-- An address matches a pattern exactly if each byte of the pattern is the wildcard 0x0F or the byte
-- of the address, and it matches every pattern made from it by wildcards at any positions.
pub matches_wildcard_lem :
    (a : SecondaryAddress) (pattern_bytes positions : List ℕ)
    → ((matches_wildcard a pattern_bytes ≡ true) ↔ Covers pattern_bytes (to_bytes a))
      × (matches_wildcard a (to_wildcard_pattern a positions) ≡ true)
unfolding matches_wildcard to_wildcard_pattern
matches_wildcard_lem a pattern_bytes positions = (
  (matches-Covers pattern_bytes (to_bytes a), Covers-matches pattern_bytes (to_bytes a)),
  Covers-matches (put_wildcards (to_bytes a) positions) (to_bytes a)
      (put_wildcards-Covers positions (to_bytes a) (to_bytes a) (self-Covers (to_bytes a))),
)
