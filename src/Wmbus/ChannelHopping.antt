-- ===== src/Wmbus/ChannelHopping.antt =====
-- src/wmbus/radio/lora/channel_hopping.rs: the round robin over the channels and its blacklist. Qualities
-- are floating-point numbers: what their tests answer is an argument. Time stamps are left out.
pub mod Pigeon
pub mod RoundRobin
pub mod Runs
pub mod Invariant
mod Tests
use mbuscrate.Prelude.{
  ℕ, zero, suc, ◌+◌, ◌%◌, List, [], ◌∷◌, ◌++◌, Bool, true, false, ◌&&◌, not, leb, ltb, ◌==◌, length,
  if◌then◌else◌, Option, none, some,
}

-- `channels` is how many there are.
pub record ChannelHopper : Type 0 where
  pub channels : ℕ
  pub current_index : ℕ
  pub blacklist : List ℕ

-- Both plans have eight channels.
pub new : ChannelHopper
new = record { channels = 8; current_index = 0; blacklist = [] }

abbrev pub contains : List ℕ → ℕ → Bool
contains [] i = false
contains (b ∷ bs) i = let later = contains bs i in if b == i then true else later

-- The loop, on fuel: a round takes the next index, and clears a blacklist of all channels.
pub round_robin : ℕ → ChannelHopper → Option ChannelHopper
round_robin zero h = none
round_robin (suc fuel) h =
    let next : ℕ = (h.current_index + 1) % h.channels in
    let rest = round_robin fuel (record h {
      current_index = next;
      blacklist = if leb h.channels (length h.blacklist) then [] else h.blacklist;
    }) in
    if contains h.blacklist next then rest else some (record h { current_index = next })

pub next_round_robin : ChannelHopper → Option ChannelHopper
unfolding round_robin
next_round_robin h = round_robin (suc h.channels) h

-- The guard on the index and the end of update_quality; `poor` answers `quality < 0.2`.
pub update_quality : ℕ → Bool → ChannelHopper → ChannelHopper
update_quality channel_idx poor h =
    if leb h.channels channel_idx
    then h
    else if poor && not (contains h.blacklist channel_idx)
    then record h { blacklist = h.blacklist ++ channel_idx ∷ [] }
    else h

abbrev pub retain_ne : ℕ → List ℕ → List ℕ
retain_ne i [] = []
retain_ne i (b ∷ bs) = if b == i then retain_ne i bs else b ∷ retain_ne i bs

-- The loop of scan_channels; the answers to `quality > 0.5`, in the order of the channels.
pub scan_from : ℕ → List Bool → ChannelHopper → ChannelHopper
scan_from idx [] h = h
scan_from idx (improved ∷ answers) h = scan_from (idx + 1) answers (
    if improved && contains h.blacklist idx
    then record h { blacklist = retain_ne idx h.blacklist }
    else h)

-- What a holder of the hopper does with it.
pub data Operation : Type 0 where
  hop : Operation
  quality_of : ℕ → Bool → Operation
  scan : List Bool → Operation

pub apply : Operation → ChannelHopper → Option ChannelHopper
unfolding next_round_robin update_quality scan_from
apply hop h = next_round_robin h
apply (quality_of channel_idx poor) h = some (update_quality channel_idx poor h)
apply (scan answers) h = some (scan_from 0 answers h)

pub run : List Operation → ChannelHopper → Option ChannelHopper
unfolding apply
run [] h = some h
run (operation ∷ operations) h = elim (apply operation h) [
  | none ↦ none
  | some after ↦ run operations after
]
