-- ===== src/Simulation/Bus/Tests.antt =====
-- Three subscribers of one event, and an instance of the theorem.
use apate.Prelude.{
  String, ◌≡◌, refl, true, false, not, List, [], ◌∷◌, ◌++◌, nat_eq, string_eq, select,
}
use apate.Dict
use apate.Dict.{Dict}
use apate.Simulation.Bus.{
  high, normal, low, EventBus, insert_sorted, sort, subscribers_of, subscribe, is_low,
  run_callbacks, publish,
}
use apate.Simulation.Bus.Order.{with_priority, ordered, names, subscribe-ordered}

abbrev empty_bus : EventBus
empty_bus = record { subscribers = []; redis = true; experimental = false }

abbrev busy_bus : EventBus
busy_bus = subscribe "WorldTick" "apt" normal (subscribe "WorldTick" "metrics" low empty_bus)

abbrev executed_by : EventBus → List String
unfolding subscribe publish run_callbacks sort insert_sorted Dict.get Dict.put
executed_by bus = (publish "WorldTick" false bus).executed

high_first : executed_by (subscribe "WorldTick" "state" high busy_bus) ≡ "state" ∷ "apt" ∷ []
unfolding executed_by
high_first = refl

subscribe-ordered_example :
    let subs = subscribers_of busy_bus "WorldTick" ++ (high, "state") ∷ [] in
    let bus' = subscribe "WorldTick" "state" high busy_bus in
    let p = publish "WorldTick" false bus' in
    (subscribers_of bus' "WorldTick" ≡ ordered subs)
    × (p.executed ≡ names (select (λ s. not (is_low s.0)) (ordered subs)))
    × (p.submitted ≡ names (with_priority low (ordered subs)))
subscribe-ordered_example = subscribe-ordered busy_bus "WorldTick" "state" high false
