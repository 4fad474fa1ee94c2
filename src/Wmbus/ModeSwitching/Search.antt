-- ===== src/Wmbus/ModeSwitching/Search.antt =====
-- Which modes `next_mode` tries, and when it gives up.
use mbuscrate.Prelude.{
  ℕ, zero, suc, ◌+◌, ◌*◌, ◌%◌, ◌≤◌, ◌<◌, ◌≡◌, refl, sym, ap, subst, ◌∙◌, List, [], ◌∷◌, Bool, true,
  false, ◌==◌, ltb, leb, if◌then◌else◌, length, get_or, min, Option, none, some, arith, Bool-cases,
  inl, inr, le_or_lt,
}
use native.Mathlib.Nat.{
  suc-mul, mul-le-mul_right, mod-eq_of_lt, mod_self, mod-lt, mul-add-mod_self_right,
}
use mbuscrate.Wmbus.ModeSwitching.{
  WmBusMode, t1, ModeSwitcher, next_mode, reset, next_mode_from, advanced, cycled,
}

-- A switcher that has established no mode and tried `k` modes of its sequence.
pub record IsSearching (sequence : List WmBusMode) (max k : ℕ) (s : ModeSwitcher) : Type 0 where
  pub searching : s.established_mode ≡ none
  pub same_sequence : s.mode_sequence ≡ sequence
  pub same_max : s.max_cycles ≡ max
  pub within : s.sequence_index < length sequence
  pub cycles : s.cycle_count ≤ max
  pub tried : s.cycle_count * length sequence + s.sequence_index ≡ k

-- The first mode of a cycle is not tried before the cycle is done: the count begins at one.
abbrev pub tried_mode : List WmBusMode → ℕ → WmBusMode
tried_mode sequence k = get_or sequence (suc k % length sequence) t1

-- One call for each instant.
unfoldable pub search_modes : List ℕ → ModeSwitcher → List (Option WmBusMode) × ModeSwitcher
search_modes [] s = ([], s)
search_modes (now ∷ instants) s =
    let (mode, s') = next_mode now s in
    let (modes, s'') = search_modes instants s' in (mode ∷ modes, s'')

-- What `n` calls should return, `k` modes into a search for at most `limit` modes.
unfoldable pub expected : List WmBusMode → ℕ → ℕ → ℕ → List (Option WmBusMode)
expected sequence limit k zero = []
expected sequence limit k (suc n) =
    (if ltb k limit then some (tried_mode sequence k) else none) ∷ expected sequence limit (k + 1) n

get_or-default :
    (xs : List WmBusMode) (i : ℕ) (d e : WmBusMode) → i < length xs → get_or xs i d ≡ get_or xs i e
get_or-default [] i d e h = absurd (omega arith)
get_or-default (x ∷ xs) zero d e h = refl
get_or-default (x ∷ xs) (suc i) d e h = get_or-default xs i d e (omega arith)

-- A complete cycle changes only the count and the delay.
record IsCycled (s after : ModeSwitcher) : Type 0 where
  established : after.established_mode ≡ s.established_mode
  sequence : after.mode_sequence ≡ s.mode_sequence
  max : after.max_cycles ≡ s.max_cycles
  index : after.sequence_index ≡ s.sequence_index
  count : after.cycle_count ≡ (if s.sequence_index == 0 then s.cycle_count + 1 else s.cycle_count)

cycled-IsCycled : (s : ModeSwitcher) → IsCycled s (cycled s)
unfolding cycled
cycled-IsCycled s = elim (Bool-cases (s.sequence_index == 0)) [
  | inl first ↦ rw first (record {
    established = refl;
    sequence = refl;
    max = refl;
    index = refl;
    count = rw first refl;
  })
  | inr later ↦ rw later (record {
    established = refl;
    sequence = refl;
    max = refl;
    index = refl;
    count = rw later refl;
  })
]

-- The step of the index and of the count of cycles, in numbers.
step_counts :
    (len c i : ℕ)
    → i < len
    → (if (i + 1) % len == 0 then c + 1 else c) * len + (i + 1) % len ≡ suc (c * len + i)
step_counts len c i h = elim (le_or_lt (suc (suc i)) len) [
  | inl inside ↦
      let same : (i + 1) % len ≡ i + 1 = mod-eq_of_lt (omega arith) in
      let later : (i + 1 == 0) ≡ false = ground arith in rw same (rw later (omega arith))
  | inr last ↦
      let whole : i + 1 ≡ len = omega arith in
      let none_left : (i + 1) % len ≡ 0 = rw whole (mod_self len) in
      rw none_left (omega (arith, whole, suc-mul c len))
]

module _ (sequence : List WmBusMode) (max k now : ℕ) (s : ModeSwitcher)
    (h : IsSearching sequence max k s) where
  abbrev moved : ModeSwitcher
  moved = record s { sequence_index = (s.sequence_index + 1) % length s.mode_sequence }

  index_in_range : (s.sequence_index + 1) % length s.mode_sequence < length sequence
  index_in_range = rw h.same_sequence (mod-lt (s.sequence_index + 1) (omega (arith, h.within)))

  advanced-IsSearching : s.cycle_count < max → IsSearching sequence max (suc k) (advanced now s)
  unfolding advanced
  advanced-IsSearching more =
      let c = cycled-IsCycled moved in
      record {
        searching = c.established ∙ h.searching;
        same_sequence = c.sequence ∙ h.same_sequence;
        same_max = c.max ∙ h.same_max;
        within = rw c.index index_in_range;
        cycles = rw c.count (at_most ((s.sequence_index + 1) % length s.mode_sequence == 0));
        tried =
            rw (c.count, c.index)
              (rw h.same_sequence (
                step_counts (length sequence) s.cycle_count s.sequence_index h.within
                ∙ ap suc h.tried));
      }
    where
      at_most : (b : Bool) → (if b then s.cycle_count + 1 else s.cycle_count) ≤ max
      at_most true = omega (arith, more)
      at_most false = omega (arith, more)

  advanced_mode : (advanced now s).current_mode ≡ tried_mode sequence k
  unfolding advanced
  advanced_mode =
      let c = cycled-IsCycled moved in
      rw (c.sequence, c.index)
        (rw h.same_sequence (
          get_or-default sequence ((s.sequence_index + 1) % length sequence) _ t1 index_here
          ∙ ap (λ (i : ℕ). get_or sequence i t1) same_index))
    where
      index_here : (s.sequence_index + 1) % length sequence < length sequence
      index_here = mod-lt (s.sequence_index + 1) (omega (arith, h.within))

      same_index : (s.sequence_index + 1) % length sequence ≡ suc k % length sequence
      same_index =
          sym (mul-add-mod_self_right s.cycle_count (length sequence) (s.sequence_index + 1))
          ∙ ap (λ (n : ℕ). n % length sequence)
              {x = s.cycle_count * length sequence + (s.sequence_index + 1)} {y = suc k}
              (omega (arith, h.tried))

  next_mode-tries :
      s.cycle_count < max → next_mode now s ≡ (some (tried_mode sequence k), advanced now s)
  unfolding next_mode next_mode_from
  next_mode-tries more =
      let test : leb s.max_cycles s.cycle_count ≡ false = ground (arith, h.same_max) in
      ap (λ (e : Option WmBusMode). next_mode_from e now s) h.searching
      ∙ rw test (ap (λ (m : WmBusMode). (some m, advanced now s)) advanced_mode)

  next_mode-stops : max ≤ s.cycle_count → next_mode now s ≡ (none, s)
  unfolding next_mode next_mode_from
  next_mode-stops done =
      let test : leb s.max_cycles s.cycle_count ≡ true = ground (arith, h.same_max) in
      ap (λ (e : Option WmBusMode). next_mode_from e now s) h.searching ∙ rw test refl

search_from :
    (sequence : List WmBusMode) (max k : ℕ) (instants : List ℕ) (s : ModeSwitcher)
    → IsSearching sequence max (min k (max * length sequence)) s
    → (search_modes instants s).0 ≡ expected sequence (max * length sequence) k (length instants)
unfolding search_modes expected
search_from sequence max k [] s h = refl
search_from sequence max k (now ∷ instants) s h = elim (le_or_lt max s.cycle_count) [
  | inl done ↦
      let most = mul-le-mul_right (length sequence) done in
      let test : ltb k limit ≡ false = ground (arith, most, h.tried) in
      let still : min k limit ≡ min (k + 1) limit = omega (arith, most, h.tried) in
      rw (next_mode-stops sequence max (min k limit) now s h done, test)
        (ap (λ (modes : List (Option WmBusMode)). none ∷ modes)
          (search_from sequence max (k + 1) instants s (rw⁻¹ still h)))
  | inr more ↦
      let most = mul-le-mul_right (length sequence) more in
      let inside : k < limit =
        omega (arith, most, h.tried, h.within, suc-mul s.cycle_count (length sequence)) in
      let test : ltb k limit ≡ true = ground (arith, inside) in
      let here : min k limit ≡ k = omega (arith, inside) in
      let next : min (k + 1) limit ≡ suc k = omega (arith, inside) in
      let now_at = here_at here in
      rw (next_mode-tries sequence max k now s now_at more, test)
        (ap (λ (modes : List (Option WmBusMode)). some (tried_mode sequence k) ∷ modes)
          (search_from sequence max (k + 1) instants (advanced now s)
            (rw next (advanced-IsSearching sequence max k now s now_at more))))
]
  where
    limit : ℕ
    limit = max * length sequence

    here_at : min k limit ≡ k → IsSearching sequence max k s
    here_at e = subst (λ (n : ℕ). IsSearching sequence max n s) e h

-- A switcher that is reset, whatever its state was, tries the modes of its sequence in order, one for each
-- call, from the second on and from the first again after the last, until every mode has been tried
-- as often as there are cycles; all later calls return nothing. No mode is established in between,
-- and the sequence is not empty.
pub search_modes-reset :
    (instants : List ℕ) (now : ℕ) (s : ModeSwitcher)
    → 1 ≤ length s.mode_sequence
    → (search_modes instants (reset now s)).0
      ≡ expected s.mode_sequence (s.max_cycles * length s.mode_sequence) 0 (length instants)
unfolding reset
search_modes-reset instants now s some_mode =
    search_from s.mode_sequence s.max_cycles 0 instants (reset now s) (record {
      searching = refl;
      same_sequence = refl;
      same_max = refl;
      within = omega arith;
      cycles = omega arith;
      tried = omega arith;
    })
