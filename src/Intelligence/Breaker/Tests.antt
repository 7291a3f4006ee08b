-- ===== src/Intelligence/Breaker/Tests.antt =====
-- One model whose request after three failures is refused, and instances of the theorems.
use apate.Prelude.{
  ◌+◌, ◌*◌, ◌/◌, ◌≤◌, String, ◌≡◌, refl, false, List, [], ◌∷◌, map, arith, nat_eq, string_eq, All,
}
use apate.Dict
use apate.Dict.{get-put_self, get-put}
use apate.Intelligence.Breaker.{
  BreakerState, open_state, half_open, ModelHealth, new_health, CircuitBreaker, health, set_health,
  may_execute, after_success, backoff, after_failure, can_execute, record_success, record_failure,
  answered, unreachable, generate, other_error,
}
use apate.Intelligence.Breaker.Machine.{state_of, serve, IsRefused, lost_probe_refuses}
use apate.Intelligence.Breaker.Backoff.{open_until}

abbrev failing : ModelHealth
failing = record new_health { failures = 2; last_failure = 900 }

abbrev busy : CircuitBreaker
busy = record {
  failure_threshold = 3;
  base_backoff = 10000;
  max_backoff = 300000;
  models = ("llama", failing) ∷ ("probed", record failing { state = half_open }) ∷ [];
}

abbrev states : CircuitBreaker → List String → List BreakerState
unfolding health set_health may_execute after_success backoff after_failure can_execute
    record_success record_failure generate Dict.get Dict.put
states b names = map (state_of b) names

trip :
    states (record_failure "llama" 1000 800 busy) ("llama" ∷ "probed" ∷ [])
    ≡ open_state ∷ half_open ∷ []
unfolding states
trip = refl

abbrev tripped_once : CircuitBreaker
tripped_once = record busy {
  models = ("llama", record failing { state = open_state; next_retry = 9000 }) ∷ [];
}

lost_probe_refuses_example : All IsRefused (
    serve "llama"
      ((20000, 20010, 1000, answered "ok") ∷ (90000, 90010, 900, answered "ok") ∷ [])
      (generate "llama" 9500 9600 1000 other_error tripped_once).2)
unfolding states
lost_probe_refuses_example =
    lost_probe_refuses tripped_once "llama" 9500 9600 1000
      ((20000, 20010, 1000, answered "ok") ∷ (90000, 90010, 900, answered "ok") ∷ []) refl
      (omega arith)

open_until_example :
    let b' = record_failure "llama" 1000 800 busy in
    ((health b' "llama").next_retry ≤ 1000 + 300000 * 800 / 1000)
    × ((generate "llama" 8999 9001 1000 (answered "ok") b').0 ≡ unreachable)
    × ((generate "llama" 8999 9001 1000 (answered "ok") b').1 ≡ false)
unfolding states
open_until_example =
    open_until busy "llama" 1000 800 8999 9001 1000 (answered "ok") (omega arith) (omega arith)
