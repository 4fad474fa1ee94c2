-- ===== src/Wmbus/ModeSwitching/Tests.antt =====
-- The theorems on the search and the negotiation at concrete inputs.
use mbuscrate.Prelude.{ℕ, ◌≡◌, ◌*◌, List, [], ◌∷◌, length, arith}
use mbuscrate.Wmbus.ModeSwitching.{WmBusMode, t1, s1, c1, c2, new, reset}
use mbuscrate.Wmbus.ModeSwitching.Search.{search_modes, expected, search_modes-reset}

-- Four calls, the second before the delay is over.
abbrev instants : List ℕ
instants = 20 ∷ 21 ∷ 60 ∷ 100 ∷ []

search_modes-reset_example :
    (search_modes instants (reset 5 (new 0))).0
    ≡ expected
        (new 0).mode_sequence
        ((new 0).max_cycles * length (new 0).mode_sequence)
        0
        (length instants)
search_modes-reset_example = search_modes-reset instants 5 (new 0) (omega arith)

abbrev ours : List WmBusMode
ours = s1 ∷ c2 ∷ t1 ∷ s1 ∷ []

abbrev theirs : List WmBusMode
theirs = t1 ∷ c1 ∷ s1 ∷ []
