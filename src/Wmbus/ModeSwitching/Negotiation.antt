-- ===== src/Wmbus/ModeSwitching/Negotiation.antt =====
-- The negotiation of a mode.
use mbuscrate.Prelude.{
  ◌≡◌, refl, List, [], ◌∷◌, ◌++◌, Bool, true, false, ◌&&◌, none, some, Bool-cases, inl, inr,
}
use mbuscrate.Wmbus.ModeSwitching.{
  WmBusMode, t1, t2, s1, s2, c1, c2, contains, find, preference_order, select_best_mode,
}

-- Both sides of a test, in one order.
and_comm : (a b : Bool) → (a && b) ≡ (b && a)
and_comm true true = refl
and_comm true false = refl
and_comm false true = refl
and_comm false false = refl

find_same :
    (p q : WmBusMode → Bool) (modes : List WmBusMode)
    → ((m : WmBusMode) → p m ≡ q m)
    → find p modes ≡ find q modes
find_same p q [] h = refl
find_same p q (m ∷ modes) h = rw (h m, find_same p q modes h) refl

find-some :
    (p : WmBusMode → Bool) (modes : List WmBusMode) (m : WmBusMode)
    → find p modes ≡ some m
    → p m ≡ true
find-some p [] m e = cc e
find-some p (x ∷ modes) m e = elim (Bool-cases (p x)) [
  | inl passes ↦ let same : x ≡ m = cc (rw passes at e) in rw⁻¹ same passes
  | inr fails ↦ find-some p modes m (rw fails at e)
]

find-none :
    (p : WmBusMode → Bool) (before : List WmBusMode) (m : WmBusMode) (after : List WmBusMode)
    → find p (before ++ (m ∷ after)) ≡ none
    → p m ≡ false
find-none p [] m after e = elim (Bool-cases (p m)) [
  | inl passes ↦ cc (rw passes at e)
  | inr fails ↦ fails
]
find-none p (x ∷ before) m after e = elim (Bool-cases (p x)) [
  | inl passes ↦ cc (rw passes at e)
  | inr fails ↦ find-none p before m after (rw fails at e)
]

-- Every mode stands in the order of preference.
find-preference_order :
    (p : WmBusMode → Bool) (m : WmBusMode) → find p preference_order ≡ none → p m ≡ false
find-preference_order p c1 e = find-none p [] c1 (c2 ∷ t1 ∷ t2 ∷ s1 ∷ s2 ∷ []) e
find-preference_order p c2 e = find-none p (c1 ∷ []) c2 (t1 ∷ t2 ∷ s1 ∷ s2 ∷ []) e
find-preference_order p t1 e = find-none p (c1 ∷ c2 ∷ []) t1 (t2 ∷ s1 ∷ s2 ∷ []) e
find-preference_order p t2 e = find-none p (c1 ∷ c2 ∷ t1 ∷ []) t2 (s1 ∷ s2 ∷ []) e
find-preference_order p s1 e = find-none p (c1 ∷ c2 ∷ t1 ∷ t2 ∷ []) s1 (s2 ∷ []) e
find-preference_order p s2 e = find-none p (c1 ∷ c2 ∷ t1 ∷ t2 ∷ s1 ∷ []) s2 [] e

-- Two sides that know each other's modes select the same mode; it is one that both support, and none is
-- selected only if they have no mode in common.
pub select_best_mode_lem :
    (ours theirs : List WmBusMode)
    → (select_best_mode ours theirs ≡ select_best_mode theirs ours)
      × ((m : WmBusMode)
          → select_best_mode ours theirs ≡ some m
          → (contains ours m && contains theirs m) ≡ true)
      × (select_best_mode ours theirs ≡ none
          → (m : WmBusMode) → (contains ours m && contains theirs m) ≡ false)
unfolding select_best_mode
select_best_mode_lem ours theirs =
    let both = λ (m : WmBusMode). contains ours m && contains theirs m in
    (
      find_same both (λ (m : WmBusMode). contains theirs m && contains ours m) preference_order
          (λ m. and_comm (contains ours m) (contains theirs m)),
      (λ m e. find-some both preference_order m e),
      (λ e m. find-preference_order both m e),
    )
