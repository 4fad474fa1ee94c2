-- ===== src/Util/IoBuffer/Search.antt =====
-- `find_pattern` and `starts_with` against occurrences of the pattern in the queue.
use mbuscrate.Prelude.{
  subst, ℕ, zero, suc, ◌+◌, ◌-◌, ◌^◌, ◌≤◌, ◌<◌, ◌≡◌, refl, sym, ap, ◌∙◌, List, [], ◌∷◌, Option,
  none, some, ◌⊎◌, true, false, ◌↔◌, if◌then◌else◌, ◌||◌, length, take, drop, arith, leb, ltb, ◌==◌,
  Bool-cases, inl, inr, le_or_lt,
}
use mbuscrate.Util.IoBuffer.{
  IoBuffer, bytes_eq, peek, peek_range, find_from, find_pattern, starts_with,
}

pub bytes_eq_iff : (xs ys : List ℕ) → (bytes_eq xs ys ≡ true) ↔ (xs ≡ ys)
unfolding bytes_eq
bytes_eq_iff [] [] = (λ _. refl, λ _. refl)
bytes_eq_iff [] (y ∷ ys) = (λ h. cc, λ h. cc)
bytes_eq_iff (x ∷ xs) [] = (λ h. cc, λ h. cc)
bytes_eq_iff (x ∷ xs) (y ∷ ys) =
    (λ h. ground (arith, bytes_eq_iff xs ys), λ h. ground (arith, bytes_eq_iff xs ys))

-- The pattern stands in the queue from position `i` on.
abbrev pub OccursAt : List ℕ → List ℕ → ℕ → Type 0
OccursAt queue pattern i =
    (i + length pattern ≤ length queue) × (take (length pattern) (drop i queue) ≡ pattern)

peek_range_inside :
    (b : IoBuffer) (i n : ℕ)
    → 0 < n
    → i + n ≤ length b.queue
    → length b.queue < 2 ^ 64
    → peek_range b i n ≡ take n (drop i b.queue)
unfolding peek_range
peek_range_inside b i n pos h small =
    rw inside (ap (λ (k : ℕ). take k (drop i b.queue)) (omega arith))
  where
    inside : leb (length b.queue) i ≡ false
    inside = ground arith

-- What the loop says when it starts at `i` with `n` positions to try.
record Searched (queue pattern : List ℕ) (i n : ℕ) (r : Option ℕ) : Type 0 where
  found :
      (k : ℕ)
      → r ≡ some k
      → OccursAt queue pattern k
        × (i ≤ k)
        × ((j : ℕ) → i ≤ j → j < k → ¬ (OccursAt queue pattern j))
  missed : r ≡ none → (j : ℕ) → i ≤ j → j < i + n → ¬ (OccursAt queue pattern j)

first_or_later : (i j : ℕ) → i ≤ j → (i ≡ j) ⊎ (i + 1 ≤ j)
first_or_later i j h = grind arith

-- One position, and what the rest of the loop says.
module _ (b : IoBuffer) (pattern : List ℕ) (n i : ℕ) (pos : 0 < length pattern)
    (small : length b.queue < 2 ^ 64) (inside : i + length pattern ≤ length b.queue) where
  window : peek_range b i (length pattern) ≡ take (length pattern) (drop i b.queue)
  window = peek_range_inside b i (length pattern) pos inside small

  hit_occurs :
      bytes_eq (peek_range b i (length pattern)) pattern ≡ true → OccursAt b.queue pattern i
  hit_occurs hit = (inside, sym window ∙ (bytes_eq_iff _ pattern).0 hit)

  miss_absent :
      bytes_eq (peek_range b i (length pattern)) pattern ≡ false
      → (j : ℕ) → i ≡ j
      → ¬ (OccursAt b.queue pattern j)
  miss_absent miss j same o = cc (
    miss,
    (bytes_eq_iff (peek_range b i (length pattern)) pattern).1
        (window ∙ (subst (OccursAt b.queue pattern) (sym same) o).1),
  )

  found_here :
      bytes_eq (peek_range b i (length pattern)) pattern ≡ true
      → (k : ℕ) → i ≡ k
      → OccursAt b.queue pattern k
        × (i ≤ k)
        × ((j : ℕ) → i ≤ j → j < k → ¬ (OccursAt b.queue pattern j))
  found_here hit k e = (
    subst (OccursAt b.queue pattern) e (hit_occurs hit),
    omega arith,
    λ j lo hi. absurd (omega arith),
  )

  later_found :
      bytes_eq (peek_range b i (length pattern)) pattern ≡ false
      → (rest : Option ℕ) → Searched b.queue pattern (i + 1) n rest
      → Searched b.queue pattern i (suc n) rest
  later_found miss rest next = record {
    found = λ k e. (
      (next.found k e).0,
      omega (arith, (next.found k e).1),
      λ j lo hi. elim (first_or_later i j lo) [
        | inl same ↦ miss_absent miss j same
        | inr later ↦ (next.found k e).2 j later hi
      ],
    );
    missed = λ e j lo hi. elim (first_or_later i j lo) [
      | inl same ↦ miss_absent miss j same
      | inr later ↦ next.missed e j later (omega arith)
    ];
  }

  Searched-step :
      (rest : Option ℕ)
      → Searched b.queue pattern (i + 1) n rest
      → Searched b.queue pattern i
          (suc n)
          (if bytes_eq (peek_range b i (length pattern)) pattern then some i else rest)
  Searched-step rest next = elim (Bool-cases (bytes_eq (peek_range b i (length pattern)) pattern)) [
    | inl hit ↦ rw hit (record { found = λ k e. found_here hit k (cc); missed = λ e. cc })
    | inr miss ↦ rw miss (later_found miss rest next)
  ]

find_from-Searched :
    (b : IoBuffer) (pattern : List ℕ) (n i : ℕ)
    → 0 < length pattern
    → length b.queue < 2 ^ 64
    → (i + n) + length pattern ≤ length b.queue + 1
    → Searched b.queue pattern i n (find_from b pattern n i)
unfolding find_from
find_from-Searched b pattern zero i pos small h = record {
  found = λ k e. cc;
  missed = λ e j lo hi. absurd (omega arith);
}
find_from-Searched b pattern (suc n) i pos small h =
    Searched-step b pattern n i pos small (omega arith) _
      (find_from-Searched b pattern n (i + 1) pos small (omega arith))

-- On a buffer of fewer than 2 ^ 64 bytes `find_pattern` returns the first position at which a
-- non-empty pattern occurs, and `None` only if it occurs nowhere.
pub find_pattern_lem :
    (b : IoBuffer) (pattern : List ℕ)
    → 0 < length pattern
    → length b.queue < 2 ^ 64
    → ((k : ℕ)
        → find_pattern b pattern ≡ some k
        → OccursAt b.queue pattern k × ((j : ℕ) → j < k → ¬ (OccursAt b.queue pattern j)))
      × (find_pattern b pattern ≡ none → (j : ℕ) → ¬ (OccursAt b.queue pattern j))
unfolding find_pattern
find_pattern_lem b pattern pos small = elim (le_or_lt (length pattern) (length b.queue)) [
  | inl fits ↦
      let test : (length pattern == 0 || ltb (length b.queue) (length pattern)) ≡ false =
        ground arith in
      let all =
        find_from-Searched b pattern (length b.queue - length pattern + 1) 0 pos small
          (omega arith) in
      rw test (
        λ k e. ((all.found k e).0, λ j lt. (all.found k e).2 j (omega arith) lt),
        λ e j o. all.missed e j (omega arith) (omega (arith, o.0)) o,
      )
  | inr short ↦
      let test : (length pattern == 0 || ltb (length b.queue) (length pattern)) ≡ true =
        ground arith in
      rw test (λ k e. cc, λ e j o. omega (arith, o.0))
]

peek_pattern : (b : IoBuffer) (n : ℕ) → n ≤ length b.queue → peek b n ≡ take n (drop 0 b.queue)
unfolding peek
peek_pattern b n h = ap (λ (k : ℕ). take k b.queue) (omega arith)

-- `starts_with` answers whether the pattern occurs at the front.
pub starts_with_iff :
    (b : IoBuffer) (pattern : List ℕ) → (starts_with b pattern ≡ true) ↔ OccursAt b.queue pattern 0
unfolding starts_with
starts_with_iff b pattern = elim (le_or_lt (length pattern) (length b.queue)) [
  | inl fits ↦
      let test : ltb (length b.queue) (length pattern) ≡ false = ground arith in
      let same = bytes_eq_iff (peek b (length pattern)) pattern in
      rw test (
        λ h. (omega arith, sym (peek_pattern b (length pattern) fits) ∙ same.0 h),
        λ o. same.1 (peek_pattern b (length pattern) fits ∙ o.1),
      )
  | inr short ↦
      let test : ltb (length b.queue) (length pattern) ≡ true = ground arith in
      rw test (λ h. cc, λ o. absurd (omega (arith, o.0)))
]
