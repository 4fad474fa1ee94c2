-- ===== src/Mbus/Walk/Ends.antt =====
-- The loop of process_data in src/mbus/mbus_protocol.rs ends: each round takes a byte at least.
use mbuscrate.Prelude.{
  ℕ, zero, suc, ◌≤◌, ◌<◌, ◌≡◌, ◌≢◌, refl, List, [], ◌∷◌, ◌++◌, leb, length, drop, Result, ok, err,
  none, some, Option, arith, Bool-cases, inl, inr, length-drop,
}
use mbuscrate.Nom.{Nom}
use mbuscrate.Mbus.Error.{MBusError}
use mbuscrate.Mbus.Protocol.{StateMachine}
use mbuscrate.Payload.Record.{MBusRecord, parse_variable_record_consumed}
use mbuscrate.Payload.Record.Consumed.{parse_variable_record_consumed_bounds}
use mbuscrate.Payload.Record.Fixed.{parse_fixed_record}
use mbuscrate.Mbus.Walk.{
  Ran, returned, panicked, out_of_fuel, calculate_record_size, Next, push, unless_stuck,
  try_parse_fixed_record, after_fixed, after_variable, walk, process_data, with_size, validated,
}

abbrev Ends : {A : Type 0} → Ran A → Type 0
Ends (returned a) = Unit {0}
Ends panicked = Unit {0}
Ends out_of_fuel = ⊥

-- The rest of the loop ends on fewer than `k` bytes.
abbrev EndsBelow : ℕ → Next → Type 0
EndsBelow k next =
    (bs : List ℕ) (records : List MBusRecord) → length bs < k → Ends (next bs records)

push-Ends :
    (next : Next) (b : ℕ) (bs : List ℕ) (records : List MBusRecord) (r : MBusRecord) (n : ℕ)
    → 1 ≤ n
    → EndsBelow (length (b ∷ bs)) next
    → Ends (push next (b ∷ bs) records (r, n))
push-Ends next b bs records r n some_taken h = elim (Bool-cases (leb (length (b ∷ bs)) n)) [
  | inl all ↦ rw all tt
  | inr part ↦
      rw part (h (drop n (b ∷ bs)) (records ++ r ∷ []) (omega (arith, length-drop n (b ∷ bs))))
]

pub calculate_record_size_bounds :
    (r : MBusRecord) → (3 ≤ calculate_record_size r) × (calculate_record_size r ≤ 255)
unfolding calculate_record_size
calculate_record_size_bounds r = (omega arith, omega arith)

module _ (nom : Nom) where
  after_fixed-Ends :
      (next : Next) (b : ℕ) (bs : List ℕ) (records : List MBusRecord)
      → (m : Option (Result MBusError MBusRecord)) → EndsBelow (length (b ∷ bs)) next
      → Ends (after_fixed nom next (b ∷ bs) records (with_size m))
  after_fixed-Ends next b bs records none h = tt
  after_fixed-Ends next b bs records (some (err e)) h = h bs records (omega arith)
  after_fixed-Ends next b bs records (some (ok r)) h =
      push-Ends next b bs records r (calculate_record_size r)
        (omega (arith, (calculate_record_size_bounds r).0)) h

  after_variable-Ends :
      (next : Next) (b : ℕ) (bs : List ℕ) (records : List MBusRecord)
      → (m : Option (Result MBusError (MBusRecord × ℕ)))
      → parse_variable_record_consumed nom (b ∷ bs) ≡ m
      → EndsBelow (length (b ∷ bs)) next
      → Ends (after_variable nom next (b ∷ bs) records m)
  unfolding try_parse_fixed_record
  after_variable-Ends next b bs records none e h = tt
  after_variable-Ends next b bs records (some (err x)) e h =
      after_fixed-Ends next b bs records (parse_fixed_record nom (b ∷ bs)) h
  after_variable-Ends next b bs records (some (ok (r, n))) e h =
      push-Ends next b bs records r n (parse_variable_record_consumed_bounds nom (b ∷ bs) r n e).0 h

  unless_stuck-Ends :
      (total k : ℕ) (next : Next) → EndsBelow k next → EndsBelow k (unless_stuck total next)
  unless_stuck-Ends total k next h bs records small = elim (Bool-cases (leb total (length bs))) [
    | inl stuck ↦ rw stuck tt
    | inr moved ↦ rw moved (h bs records small)
  ]

  walk-Ends : (fuel total : ℕ) → EndsBelow fuel (walk nom fuel total)
  unfolding walk
  walk-Ends zero total bs records small = absurd (omega arith)
  walk-Ends (suc fuel) total [] records small = tt
  walk-Ends (suc fuel) total (b ∷ bs) records small =
      after_variable-Ends (unless_stuck total (walk nom fuel total)) b bs records
        (parse_variable_record_consumed nom (b ∷ bs)) refl
        (unless_stuck-Ends total (length (b ∷ bs)) (walk nom fuel total)
          (λ cs more fewer. walk-Ends fuel total cs more (omega arith)))

  validated-Ends : (w : Ran (List MBusRecord)) → Ends w → validated nom w ≢ out_of_fuel
  validated-Ends (returned records) h e = cc
  validated-Ends panicked h e = cc
  validated-Ends out_of_fuel h e = h

  -- On every payload the loop of process_data ends within the rounds that the model allows: it returns
  -- or panics.
  pub process_data_ends :
      (payload : List ℕ) (m : StateMachine) → (process_data nom payload m).0 ≢ out_of_fuel
  unfolding process_data
  process_data_ends [] m e = cc
  process_data_ends (b ∷ bs) m e =
      validated-Ends (walk nom (suc (length (b ∷ bs))) (length (b ∷ bs)) (b ∷ bs) [])
        (walk-Ends (suc (length (b ∷ bs))) (length (b ∷ bs)) (b ∷ bs) [] (omega arith)) e
