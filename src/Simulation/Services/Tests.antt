-- ===== src/Simulation/Services/Tests.antt =====
-- A cycle of cron, and an instance of the theorem.
use apate.Prelude.{◌≡◌, refl, Bool, true, false, List, [], ◌∷◌, arith, nat_eq, string_eq}
use apate.Simulation.Services.{
  CronState, cron_idle, scheduled, running, finished, cron_next, cron_code, on_tick, on_ticks,
}
use apate.Simulation.Services.Chains.{IsChain, on_ticks-IsChain}

abbrev cron_events : List Bool → List (CronState × CronState)
unfolding on_ticks on_tick
cron_events draws = (on_ticks cron_next cron_code draws cron_idle).1

waits_then_runs :
    cron_events (false ∷ true ∷ true ∷ []) ≡ (cron_idle, scheduled) ∷ (scheduled, running) ∷ []
unfolding cron_events
waits_then_runs = refl

cron_code-injective : (x y : CronState) → cron_code x ≡ cron_code y → x ≡ y
cron_code-injective cron_idle cron_idle h = refl
cron_code-injective cron_idle scheduled h = absurd (omega (arith, h))
cron_code-injective cron_idle running h = absurd (omega (arith, h))
cron_code-injective cron_idle finished h = absurd (omega (arith, h))
cron_code-injective scheduled cron_idle h = absurd (omega (arith, h))
cron_code-injective scheduled scheduled h = refl
cron_code-injective scheduled running h = absurd (omega (arith, h))
cron_code-injective scheduled finished h = absurd (omega (arith, h))
cron_code-injective running cron_idle h = absurd (omega (arith, h))
cron_code-injective running scheduled h = absurd (omega (arith, h))
cron_code-injective running running h = refl
cron_code-injective running finished h = absurd (omega (arith, h))
cron_code-injective finished cron_idle h = absurd (omega (arith, h))
cron_code-injective finished scheduled h = absurd (omega (arith, h))
cron_code-injective finished running h = absurd (omega (arith, h))
cron_code-injective finished finished h = refl

on_ticks-IsChain_example :
    let (last, events) = on_ticks cron_next cron_code (false ∷ true ∷ true ∷ []) cron_idle in
    IsChain cron_next cron_code cron_idle events last
on_ticks-IsChain_example =
    on_ticks-IsChain cron_next cron_code cron_code-injective (false ∷ true ∷ true ∷ []) cron_idle
