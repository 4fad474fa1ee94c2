-- ===== src/Wmbus/ModeSwitching.antt =====
-- src/wmbus/mode_switching.rs: the search for a mode that a meter answers, and the negotiation of one.
-- Instants are milliseconds: `next_mode` and the others take the instant of the call, and a sleep
-- ends at the instant it was meant for. The frequency, a floating-point constant, is left out.
pub mod Search
pub mod Negotiation
mod Tests
use mbuscrate.Prelude.{
  ℕ, zero, suc, ◌+◌, ◌-◌, ◌*◌, ◌%◌, ◌^◌, List, [], ◌∷◌, Bool, true, false, not, ◌&&◌, ◌||◌, ◌==◌,
  ltb, leb, if◌then◌else◌, length, get_or, set, min, bit_and, bit_or, Option, none, some,
}

pub data WmBusMode : Type 0 where
  t1 t2 s1 s2 c1 c2 : WmBusMode

pub chip_rate : WmBusMode → ℕ
chip_rate t1 = 100000
chip_rate t2 = 100000
chip_rate s1 = 32768
chip_rate s2 = 32768
chip_rate c1 = 100000
chip_rate c2 = 100000

pub data_rate : WmBusMode → ℕ
data_rate t1 = 66667
data_rate t2 = 66667
data_rate s1 = 16384
data_rate s2 = 16384
data_rate c1 = 100000
data_rate c2 = 100000

pub preamble_chips : WmBusMode → ℕ
preamble_chips t1 = 19
preamble_chips t2 = 19
preamble_chips s1 = 279
preamble_chips s2 = 15
preamble_chips c1 = 64
preamble_chips c2 = 64

pub sync_word : WmBusMode → List ℕ
sync_word t1 = 0x54 ∷ 0x3D ∷ []
sync_word t2 = 0x54 ∷ 0x3D ∷ []
sync_word s1 = 0x54 ∷ 0x3D ∷ []
sync_word s2 = 0x54 ∷ 0x3D ∷ []
sync_word c1 = 0x54 ∷ 0xCD ∷ []
sync_word c2 = 0x54 ∷ 0xCD ∷ []

abbrev pub mode_to_index : WmBusMode → ℕ
mode_to_index t1 = 0
mode_to_index t2 = 1
mode_to_index s1 = 2
mode_to_index s2 = 3
mode_to_index c1 = 4
mode_to_index c2 = 5

pub record SwitchingStats : Type 0 where
  pub switches_attempted : ℕ
  pub switches_successful : ℕ
  pub cycles_failed : ℕ
  pub time_per_mode : List ℕ

pub record ModeSwitcher : Type 0 where
  pub current_mode : WmBusMode
  pub established_mode : Option WmBusMode
  pub mode_sequence : List WmBusMode
  pub sequence_index : ℕ
  pub last_switch : ℕ
  pub cycle_count : ℕ
  pub max_cycles : ℕ
  pub switch_delay_ms : ℕ
  pub stats : SwitchingStats

-- A sequence that begins with `first`; an empty one makes `with_sequence` panic.
abbrev starting_with : WmBusMode → List WmBusMode → ℕ → ModeSwitcher
starting_with first sequence now = record {
  current_mode = first;
  established_mode = none;
  mode_sequence = sequence;
  sequence_index = 0;
  last_switch = now;
  cycle_count = 0;
  max_cycles = 10;
  switch_delay_ms = 10;
  stats = record {
    switches_attempted = 0;
    switches_successful = 0;
    cycles_failed = 0;
    time_per_mode = 0 ∷ 0 ∷ 0 ∷ 0 ∷ 0 ∷ 0 ∷ [];
  };
}

abbrev pub new : ℕ → ModeSwitcher
new now = starting_with t1 (t1 ∷ s1 ∷ c1 ∷ []) now

unfoldable pub with_sequence : List WmBusMode → ℕ → Option ModeSwitcher
with_sequence [] now = none
with_sequence (mode ∷ modes) now = some (starting_with mode (mode ∷ modes) now)

-- The instant after the wait for the delay.
abbrev pub woken : ℕ → ModeSwitcher → ℕ
woken now s =
    if ltb (now - s.last_switch) s.switch_delay_ms then s.last_switch + s.switch_delay_ms else now

-- `if self.sequence_index == 0`: a cycle is complete.
pub cycled : ModeSwitcher → ModeSwitcher
cycled s =
    if s.sequence_index == 0
    then record s {
      cycle_count = s.cycle_count + 1;
      switch_delay_ms =
          if ltb 1 (s.cycle_count + 1)
          then min (s.switch_delay_ms * 2 % 2 ^ 64) 1000
          else s.switch_delay_ms;
    }
    else s

-- The step to the next mode of the sequence.
pub advanced : ℕ → ModeSwitcher → ModeSwitcher
unfolding cycled
advanced now s =
    let moved =
      cycled (record s { sequence_index = (s.sequence_index + 1) % length s.mode_sequence }) in
    record moved {
      current_mode = get_or moved.mode_sequence moved.sequence_index moved.current_mode;
      last_switch = woken now s;
      stats = record moved.stats {
        switches_attempted = (moved.stats.switches_attempted + 1) % 2 ^ 64;
      };
    }

next_mode_from : Option WmBusMode → ℕ → ModeSwitcher → Option WmBusMode × ModeSwitcher
unfolding advanced
next_mode_from (some mode) now s = (some mode, s)
next_mode_from none now s =
    if leb s.max_cycles s.cycle_count
    then (none, s)
    else (some (advanced now s).current_mode, advanced now s)

pub next_mode : ℕ → ModeSwitcher → Option WmBusMode × ModeSwitcher
unfolding next_mode_from
next_mode now s = next_mode_from s.established_mode now s

pub mode_established : ℕ → WmBusMode → ModeSwitcher → ModeSwitcher
mode_established now mode s =
    let times = s.stats.time_per_mode in
    let i = mode_to_index mode in
    record s {
      established_mode = some mode;
      stats = record s.stats {
        switches_successful = (s.stats.switches_successful + 1) % 2 ^ 64;
        time_per_mode = set times i ((get_or times i 0 + (now - s.last_switch)) % 2 ^ 64);
      };
    }

pub reset : ℕ → ModeSwitcher → ModeSwitcher
reset now s = record s {
  established_mode = none;
  sequence_index = 0;
  cycle_count = 0;
  switch_delay_ms = 10;
  current_mode = get_or s.mode_sequence 0 s.current_mode;
  last_switch = now;
}

pub set_switch_delay : ℕ → ModeSwitcher → ModeSwitcher
set_switch_delay delay_ms s = record s { switch_delay_ms = delay_ms }

pub set_max_cycles : ℕ → ModeSwitcher → ModeSwitcher
set_max_cycles max_cycles s = record s { max_cycles = max_cycles }

-- The bit of a mode in the bitmask of `build_capability_frame`.
abbrev pub capability : WmBusMode → ℕ
capability t1 = 0x01
capability t2 = 0x02
capability s1 = 0x04
capability s2 = 0x08
capability c1 = 0x10
capability c2 = 0x20

abbrev pub capabilities_from : ℕ → List WmBusMode → ℕ
capabilities_from capabilities [] = capabilities
capabilities_from capabilities (mode ∷ modes) =
    capabilities_from (bit_or capabilities (capability mode)) modes

-- The negotiator is its list of supported modes; its other two fields are not used.
pub build_capability_frame : List WmBusMode → List ℕ
build_capability_frame supported_modes = 0x7A ∷ capabilities_from 0 supported_modes ∷ []

-- The modes in the order of the tests in the source.
abbrev pub tested_modes : List WmBusMode
tested_modes = t1 ∷ t2 ∷ s1 ∷ s2 ∷ c1 ∷ c2 ∷ []

abbrev pub supports : ℕ → WmBusMode → Bool
supports capabilities mode = not (bit_and capabilities (capability mode) == 0)

abbrev pub filtered : (WmBusMode → Bool) → List WmBusMode → List WmBusMode
filtered test [] = []
filtered test (mode ∷ modes) = if test mode then mode ∷ filtered test modes else filtered test modes

pub parse_capability_frame : List ℕ → Option (List WmBusMode)
parse_capability_frame [] = none
parse_capability_frame (ci ∷ []) = none
parse_capability_frame (ci ∷ capabilities ∷ rest) =
    if ci == 0x7A then some (filtered (supports capabilities) tested_modes) else none

-- Two modes are equal if their indices are.
abbrev pub contains : List WmBusMode → WmBusMode → Bool
contains [] mode = false
contains (m ∷ modes) mode = mode_to_index m == mode_to_index mode || contains modes mode

abbrev pub find : (WmBusMode → Bool) → List WmBusMode → Option WmBusMode
find test [] = none
find test (mode ∷ modes) = if test mode then some mode else find test modes

abbrev pub preference_order : List WmBusMode
preference_order = c1 ∷ c2 ∷ t1 ∷ t2 ∷ s1 ∷ s2 ∷ []

pub select_best_mode : List WmBusMode → List WmBusMode → Option WmBusMode
select_best_mode supported_modes remote_modes =
    find (λ (mode : WmBusMode). contains supported_modes mode && contains remote_modes mode)
      preference_order
