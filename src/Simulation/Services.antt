-- ===== src/Simulation/Services.antt =====
-- src/chronos/simulation/services: the services as state machines that a tick of the world moves.
-- `draw` says whether the random number of an idle service falls below its bound, 0.2 for cron and
-- 0.05 for apt.
pub mod Chains
pub mod Tests
use apate.Prelude.{ℕ, Bool, List, [], ◌∷◌, ◌++◌, nat_beq, if◌then◌else◌, nat_eq, string_eq}

-- A service's state, after it and the ServiceStateChanged events of its ticks.
pub data CronState : Type 0 where
  cron_idle scheduled running finished : CronState

pub data AptState : Type 0 where
  apt_idle checking downloading installing : AptState

abbrev pub cron_next : Bool → CronState → CronState
cron_next draw cron_idle = if draw then scheduled else cron_idle
cron_next draw scheduled = running
cron_next draw running = finished
cron_next draw finished = cron_idle

abbrev pub apt_next : Bool → AptState → AptState
apt_next draw apt_idle = if draw then checking else apt_idle
apt_next draw checking = downloading
apt_next draw downloading = installing
apt_next draw installing = apt_idle

-- The numbers of the states, by which they are compared.
abbrev pub cron_code : CronState → ℕ
cron_code cron_idle = 0
cron_code scheduled = 1
cron_code running = 2
cron_code finished = 3

abbrev pub apt_code : AptState → ℕ
apt_code apt_idle = 0
apt_code checking = 1
apt_code downloading = 2
apt_code installing = 3

module _ {State : Type 0} (next : Bool → State → State) (code : State → ℕ) where
  -- `on_tick`: the new state, and the event with the old and the new one if they differ.
  unfoldable pub on_tick : Bool → State → State × List (State × State)
  on_tick draw old =
      let new = next draw old in
      if nat_beq (code old) (code new) then (new, []) else (new, (old, new) ∷ [])

  unfoldable pub on_ticks : List Bool → State → State × List (State × State)
  on_ticks [] s = (s, [])
  on_ticks (draw ∷ draws) s =
      let (s', events) = on_tick draw s in
      let (last, more) = on_ticks draws s' in (last, events ++ more)
