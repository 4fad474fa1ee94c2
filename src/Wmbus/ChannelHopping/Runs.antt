-- ===== src/Wmbus/ChannelHopping/Runs.antt =====
-- src/wmbus/radio/lora/channel_hopping.rs: any sequence of operations on a hopper.
use mbuscrate.Prelude.{
  ℕ, zero, suc, ◌+◌, ◌≤◌, ◌<◌, ◌≡◌, ◌∙◌, refl, List, [], ◌∷◌, ◌%◌, leb, length, arith, Bool-cases,
  inl, inr, some, if◌then◌else◌,
}
use mbuscrate.Wmbus.ChannelHopping.{
  ChannelHopper, contains, round_robin, next_round_robin, Operation, hop, quality_of, scan, apply,
  run,
}
use mbuscrate.Wmbus.ChannelHopping.RoundRobin.{IsFound, next_round_robin_lem}
use mbuscrate.Wmbus.ChannelHopping.Invariant.{
  AreChannels, AreChannels-length, IsValid, update_quality-IsValid, scan_from-IsValid,
}

next_blacklist_AreChannels :
    (n : ℕ) (bs : List ℕ) → AreChannels n bs → AreChannels n (if leb n (length bs) then [] else bs)
next_blacklist_AreChannels n bs valid = ground arith

some-blacklist :
    (n : ℕ) (h after : ChannelHopper)
    → some h ≡ some after
    → AreChannels n h.blacklist
    → AreChannels n after.blacklist
some-blacklist n h after same valid = ground arith

round_robin-AreChannels :
    (fuel : ℕ) (h after : ChannelHopper)
    → AreChannels h.channels h.blacklist
    → round_robin fuel h ≡ some after
    → AreChannels h.channels after.blacklist
unfolding round_robin
round_robin-AreChannels zero h after valid ended = cc
round_robin-AreChannels (suc fuel) h after valid ended =
    elim (Bool-cases (contains h.blacklist ((h.current_index + 1) % h.channels))) [
      | inl listed ↦
          round_robin-AreChannels fuel _ after
            (next_blacklist_AreChannels h.channels h.blacklist valid) (rw listed at ended)
      | inr free ↦ some-blacklist h.channels _ after (rw free at ended) valid
    ]

next_round_robin-IsValid :
    (h after : ChannelHopper)
    → IsValid h
    → next_round_robin h ≡ some after
    → after.channels ≡ h.channels
    → after.current_index < h.channels
    → IsValid after
unfolding next_round_robin
next_round_robin-IsValid h after valid ended same inside =
    (omega arith, rw same (round_robin-AreChannels (suc h.channels) h after valid.1 ended))

apply-IsValid :
    (operation : Operation) (h : ChannelHopper)
    → IsValid h
    → (after : ChannelHopper) × (apply operation h ≡ some after) × IsValid after
unfolding apply
apply-IsValid hop h valid =
    let found : IsFound h (next_round_robin h) = next_round_robin_lem h valid.0 in
    (found.0, found.1, next_round_robin-IsValid h found.0 valid found.1 found.2 found.3)
apply-IsValid (quality_of channel_idx poor) h valid =
    (_, refl, update_quality-IsValid channel_idx poor h valid)
apply-IsValid (scan answers) h valid = (_, refl, scan_from-IsValid 0 answers h valid)

run-first_operation :
    (operation : Operation) (operations : List Operation) (h after : ChannelHopper)
    → apply operation h ≡ some after
    → run (operation ∷ operations) h ≡ run operations after
unfolding run
run-first_operation operation operations h after ended = rw (run, ended) refl

-- From a current channel and a blacklist that are in range, without repetitions, any sequence of hops by round
-- robin, updates of qualities and scans returns; the blacklist then has no more entries than there are channels,
-- and the next hop ends on one of the channels, that is not on the blacklist as that hop leaves it.
pub run_lem :
    (operations : List Operation) (h : ChannelHopper)
    → IsValid h
    → (after : ChannelHopper) × (run operations h ≡ some after)
      × IsValid after
      × (length after.blacklist ≤ after.channels)
      × IsFound after (next_round_robin after)
unfolding run
run_lem [] h valid = (
  h,
  refl,
  valid,
  AreChannels-length h.channels h.blacklist valid.1,
  next_round_robin_lem h valid.0,
)
run_lem (operation ∷ operations) h valid =
    let next : (after : ChannelHopper) × (apply operation h ≡ some after) × IsValid after =
      apply-IsValid operation h valid in
    let rest = run_lem operations next.0 next.2 in
    (
      rest.0,
      run-first_operation operation operations h next.0 next.1 ∙ rest.1,
      rest.2,
      rest.3,
      rest.4,
    )
