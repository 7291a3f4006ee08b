-- ===== src/Intelligence/Breaker.antt =====
-- src/chronos/intelligence/inference.py: the circuit breaker of each model, and how a generation
-- reports to it. Times and durations are whole milliseconds, rounded down, and a jitter of 1.0 is
-- written 1000. The methods run one at a time.
pub mod Machine
pub mod Backoff
pub mod Tests
use apate.Prelude.{
  ℕ, ◌+◌, ◌-◌, ◌*◌, ◌/◌, ◌^◌, min, String, Bool, true, false, not, ◌||◌, leb, nat_beq,
  if◌then◌else◌, nat_eq, string_eq, get_or,
}
use apate.Dict
use apate.Dict.{Dict}

pub data BreakerState : Type 0 where
  closed open_state half_open : BreakerState

pub record ModelHealth : Type 0 where
  pub state : BreakerState
  pub failures : ℕ
  pub successes : ℕ
  pub next_retry : ℕ
  pub last_success : ℕ
  pub last_failure : ℕ
  pub average_latency : ℕ

abbrev pub new_health : ModelHealth
new_health = record {
  state = closed;
  failures = 0;
  successes = 0;
  next_retry = 0;
  last_success = 0;
  last_failure = 0;
  average_latency = 0;
}

pub record CircuitBreaker : Type 0 where
  pub failure_threshold : ℕ
  pub base_backoff : ℕ
  pub max_backoff : ℕ
  pub models : Dict String ModelHealth

-- `_get_health`: a model that is not there is entered.
unfoldable pub health : CircuitBreaker → String → ModelHealth
health b model = get_or new_health (Dict.get b.models model)

unfoldable pub set_health : CircuitBreaker → String → ModelHealth → CircuitBreaker
set_health b model h = record b { models = Dict.put b.models model h }

-- Whether one model may be called at a time, and its health afterwards.
unfoldable pub may_execute : ℕ → ModelHealth → Bool × ModelHealth
may_execute now h = elim h.state [
  | closed ↦ (true, h)
  | open_state ↦ if leb h.next_retry now then (true, record h { state = half_open }) else (false, h)
  | half_open ↦ (false, h)
]

unfoldable pub after_success : ℕ → ℕ → ModelHealth → ModelHealth
after_success now latency h = record h {
  successes = h.successes + 1;
  failures = 0;
  state = closed;
  last_success = now;
  average_latency =
      if nat_beq h.average_latency 0 then latency else (h.average_latency * 9 + latency) / 10;
}

-- min(max_backoff, base_backoff * 2 ** max(0, failures - failure_threshold))
unfoldable pub backoff : CircuitBreaker → ℕ → ℕ
backoff b failures = min b.max_backoff (b.base_backoff * 2 ^ (failures - b.failure_threshold))

abbrev pub is_half_open : BreakerState → Bool
is_half_open half_open = true
is_half_open _ = false

unfoldable pub after_failure : CircuitBreaker → ℕ → ℕ → ModelHealth → ModelHealth
after_failure b now jitter h =
    let failed = record h { failures = h.failures + 1; last_failure = now } in
    if is_half_open h.state || leb b.failure_threshold (h.failures + 1)
    then record failed {
      state = open_state;
      next_retry = now + backoff b (h.failures + 1) * jitter / 1000;
    }
    else failed

unfoldable pub can_execute : String → ℕ → CircuitBreaker → Bool × CircuitBreaker
can_execute model now b =
    let (allowed, h) = may_execute now (health b model) in (allowed, set_health b model h)

unfoldable pub record_success : String → ℕ → ℕ → CircuitBreaker → CircuitBreaker
record_success model now latency b = set_health b model (after_success now latency (health b model))

unfoldable pub record_failure : String → ℕ → ℕ → CircuitBreaker → CircuitBreaker
record_failure model now jitter b = set_health b model (after_failure b now jitter (health b model))

-- How the request to the model goes: a complete answer, an exception of `requests`, a ValueError
-- (a malformed, truncated or incomplete stream), or an exception of another class.
pub data Attempt : Type 0 where
  answered : String → Attempt
  request_error value_error other_error : Attempt

pub data Generation : Type 0 where
  content : String → Generation
  unreachable : Generation
  raised : Generation

-- `InferenceRuntime.generate`: the breaker at the start `begin`, the request, and the report of its
-- outcome at the time `end`. The Boolean says whether the model was asked.
unfoldable pub generate :
    String → ℕ → ℕ → ℕ → Attempt → CircuitBreaker → Generation × Bool × CircuitBreaker
generate model begin end jitter attempt b =
    let (allowed, b') = can_execute model begin b in
    if not allowed then (unreachable, false, b') else elim attempt [
      | answered text ↦ (content text, true, record_success model end (end - begin) b')
      | request_error ↦ (unreachable, true, record_failure model end jitter b')
      | value_error ↦ (unreachable, true, record_failure model end jitter b')
      | other_error ↦ (raised, true, b')
    ]
