-- ===== src/Wmbus/ChannelHopping/Tests.antt =====
-- Runs of src/wmbus/radio/lora/channel_hopping.rs, and the theorems at concrete hoppers.
use mbuscrate.Prelude.{List, length, ◌≤◌, [], ◌∷◌, ◌≡◌, refl, true, false, some, arith}
use mbuscrate.Wmbus.ChannelHopping.{
  ChannelHopper, new, round_robin, next_round_robin, update_quality, scan_from, Operation, hop,
  quality_of, scan, run, apply,
}
use mbuscrate.Wmbus.ChannelHopping.RoundRobin.{IsFound}
use mbuscrate.Wmbus.ChannelHopping.Invariant.{IsValid}
use mbuscrate.Wmbus.ChannelHopping.Runs.{run_lem}

-- Three channels, and the blacklist of all of them.
abbrev jammed : ChannelHopper
jammed = record { channels = 3; current_index = 1; blacklist = 0 ∷ 2 ∷ 1 ∷ [] }

-- The second and the third channel are skipped, and the count goes around the end.
run-skip :
    next_round_robin (record { channels = 4; current_index = 1; blacklist = 2 ∷ 3 ∷ [] })
    ≡ some (record { channels = 4; current_index = 0; blacklist = 2 ∷ 3 ∷ [] })
unfolding next_round_robin round_robin
run-skip = refl

run-clear :
    next_round_robin jammed ≡ some (record { channels = 3; current_index = 0; blacklist = [] })
unfolding next_round_robin round_robin
run-clear = refl

run-first : next_round_robin new ≡ some (record { channels = 8; current_index = 1; blacklist = [] })
unfolding next_round_robin round_robin new
run-first = refl

-- A poor channel is blacklisted once, and the scan takes it off again.
run-quality :
    scan_from 0
      (false ∷ true ∷ true ∷ [])
      (update_quality 2 true (update_quality 0 true (update_quality 2 true new)))
    ≡ record { channels = 8; current_index = 0; blacklist = 0 ∷ [] }
unfolding update_quality scan_from new
run-quality = refl

-- Three channels of which the first two are blacklisted, the last by an update; the hops clear the list of all.
abbrev three : ChannelHopper
three = record { channels = 3; current_index = 0; blacklist = 0 ∷ 1 ∷ [] }

abbrev operations : List Operation
operations = hop ∷ quality_of 2 true ∷ hop ∷ quality_of 1 true ∷ scan (true ∷ true ∷ []) ∷ []

run-operations :
    run operations three ≡ some (record { channels = 3; current_index = 1; blacklist = [] })
unfolding run apply next_round_robin round_robin update_quality scan_from
run-operations = refl

run_lem_example :
    (after : ChannelHopper) × (run operations three ≡ some after)
    × IsValid after
    × (length after.blacklist ≤ after.channels)
    × IsFound after (next_round_robin after)
run_lem_example =
    run_lem operations three (omega arith, (omega arith, refl, (omega arith, refl, tt)))
