-- ===== src/Wmbus/Crc/Table.antt =====
-- The entries of the lookup table: `CRC_TABLE[j]` is eight rounds of the register on `j << 8`.
use mbuscrate.Prelude.{
  ℕ, zero, suc, ◌+◌, ◌*◌, ◌%◌, ◌^◌, ◌≤◌, ◌<◌, ◌≡◌, refl, sym, ap, ◌∙◌, ◌⊎◌, inl, inr, List, get_or,
  set, length, length-set, length-replicate, get_or-set_self, get_or-set_ne, replicate, arith,
}
use mbuscrate.Wmbus.Crc.{crc_bits, build_table_from, build_table}

abbrev entry : ℕ → ℕ
entry j = crc_bits 8 (j * 2 ^ 8)

-- What is written stays.
build_table_from_keeps :
    (n i j : ℕ) (t : List ℕ) → j < i → get_or (build_table_from n i t) j 0 ≡ get_or t j 0
unfolding build_table_from
build_table_from_keeps zero i j t h = refl
build_table_from_keeps (suc n) i j t h =
    build_table_from_keeps n (i + 1) j _ (omega arith)
    ∙ get_or-set_ne t _ 0 (λ (e : i ≡ j). omega arith)

le_cases : (i j : ℕ) → i ≤ j → (i ≡ j) ⊎ (i + 1 ≤ j)
le_cases i j h = grind arith

build_table_from-entry :
    (n i j : ℕ) (t : List ℕ)
    → i ≤ j
    → j < i + n
    → i + n ≡ length t
    → i + n ≤ 256
    → get_or (build_table_from n i t) j 0 ≡ entry j
unfolding build_table_from
build_table_from-entry zero i j t lo hi e b = absurd (omega arith)
build_table_from-entry (suc n) i j t lo hi e b = elim (le_cases i j lo) [
  | inl p ↦
      build_table_from_keeps n (i + 1) j _ (omega arith)
      ∙ ap (λ (k : ℕ). get_or (set t i (crc_bits 8 (i * 2 ^ 8 % 2 ^ 16))) k 0) (sym p)
      ∙ get_or-set_self t i _ 0 (omega arith)
      ∙ ap (crc_bits 8) (omega arith)
  | inr p ↦
      build_table_from-entry n (i + 1) j _ p (omega arith)
        (omega (arith, length-set t i (crc_bits 8 (i * 2 ^ 8 % 2 ^ 16)))) (omega arith)
]

pub get_or-build_table : (j : ℕ) → j < 256 → get_or build_table j 0 ≡ crc_bits 8 (j * 2 ^ 8)
unfolding build_table
get_or-build_table j h =
    build_table_from-entry 256 0 j (replicate 256 0) (omega arith) h
      (sym (length-replicate {A = ℕ} 256 0)) (omega arith)
