-- ===== src/Simulation/Bus.antt =====
-- src/chronos/simulation/event_bus.py: the subscribers of each type of event, and what a publication
-- runs. Types of events and callbacks are given by their names; `_safe_execute` runs a callback and
-- drops its exceptions, so that the next one runs in any case.
pub mod Order
pub mod Tests
use apate.Prelude.{
  ℕ, String, Bool, true, false, not, ◌&&◌, List, [], ◌∷◌, ◌++◌, leb, if◌then◌else◌, nat_eq,
  string_eq, get_or,
}
use apate.Dict
use apate.Dict.{Dict}

pub data EventPriority : Type 0 where
  high normal low : EventPriority

-- The values of the enumeration.
abbrev pub rank : EventPriority → ℕ
rank high = 1
rank normal = 5
rank low = 10

abbrev pub Subscription : Type 0
Subscription = EventPriority × String

-- The subscribers, whether there is a Redis client, and the switch CHRONOS_EXPERIMENTAL_WORLD.
pub record EventBus : Type 0 where
  pub subscribers : Dict String (List Subscription)
  pub redis : Bool
  pub experimental : Bool

-- list.sort by the priority, which keeps the order of equals.
unfoldable pub insert_sorted : Subscription → List Subscription → List Subscription
insert_sorted x [] = x ∷ []
insert_sorted x (y ∷ ys) =
    let later = insert_sorted x ys in if leb (rank x.0) (rank y.0) then x ∷ y ∷ ys else y ∷ later

unfoldable pub sort : List Subscription → List Subscription
sort [] = []
sort (x ∷ xs) = insert_sorted x (sort xs)

abbrev pub subscribers_of : EventBus → String → List Subscription
subscribers_of bus event_type = get_or [] (Dict.get bus.subscribers event_type)

unfoldable pub subscribe : String → String → EventPriority → EventBus → EventBus
subscribe event_type callback priority bus = record bus {
  subscribers =
      Dict.put bus.subscribers event_type
        (sort (subscribers_of bus event_type ++ (priority, callback) ∷ []));
}

-- What a publication does: whether it goes to Redis, the callbacks that it runs, in order, and those
-- that it hands to the executor, in order.
pub record Publication : Type 0 where
  pub forwarded : Bool
  pub executed : List String
  pub submitted : List String

abbrev pub is_low : EventPriority → Bool
is_low low = true
is_low _ = false

unfoldable pub run_callbacks : List Subscription → Publication → Publication
run_callbacks [] p = p
run_callbacks ((priority, callback) ∷ rest) p = run_callbacks rest (
    if is_low priority
    then record p { submitted = p.submitted ++ callback ∷ [] }
    else record p { executed = p.executed ++ callback ∷ [] })

unfoldable pub publish : String → Bool → EventBus → Publication
publish event_type local_only bus = run_callbacks (subscribers_of bus event_type) (record {
  forwarded = bus.redis && not local_only && bus.experimental;
  executed = [];
  submitted = [];
})
