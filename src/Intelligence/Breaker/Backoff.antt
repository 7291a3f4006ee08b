-- ===== src/Intelligence/Breaker/Backoff.antt =====
-- Failures in a row: when they trip the breaker, and for how long.
use apate.Prelude.{
  ℕ, suc, ◌+◌, ◌*◌, ◌/◌, ◌≤◌, ◌<◌, min, String, ◌≡◌, refl, false, List, [], ◌∷◌, arith, nat_eq,
  string_eq, ==_refl, length, ◌-◌, subst, zero, ◌^◌, sym,
}
use apate.Intelligence.Breaker.{
  open_state, ModelHealth, CircuitBreaker, health, set_health, after_failure, record_failure,
  Attempt, unreachable, generate, may_execute, backoff, can_execute,
}
use apate.Intelligence.Breaker.Machine.{health-set_health, state_of}

-- The failures of one model, each with its time and its jitter.
abbrev pub fail_all : String → List (ℕ × ℕ) → CircuitBreaker → CircuitBreaker
fail_all model [] b = b
fail_all model ((now, jitter) ∷ rest) b = fail_all model rest (record_failure model now jitter b)

-- What one more failure does to its model.
failure_step :
    (b : CircuitBreaker) (model : String) (now jitter : ℕ)
    → health (record_failure model now jitter b) model ≡ after_failure b now jitter (health b model)
unfolding record_failure
failure_step b model now jitter = ground (
  arith,
  health-set_health b model model (after_failure b now jitter (health b model)),
  ==_refl model,
)

after_failure-count :
    (b : CircuitBreaker) (now jitter : ℕ) (h : ModelHealth)
    → (after_failure b now jitter h).failures ≡ h.failures + 1
unfolding after_failure
after_failure-count b now jitter h = ground arith

same_threshold :
    (b : CircuitBreaker) (model : String) (now jitter : ℕ)
    → (record_failure model now jitter b).failure_threshold ≡ b.failure_threshold
unfolding record_failure set_health
same_threshold b model now jitter = refl

after_failure-opens :
    (b : CircuitBreaker) (now jitter : ℕ) (h : ModelHealth)
    → b.failure_threshold ≤ h.failures + 1
    → (after_failure b now jitter h).state ≡ open_state
unfolding after_failure
after_failure-opens b now jitter h l = ground arith

-- After failures in a row that, with those counted before, reach the threshold, the model is open.
failures_trip :
    (b : CircuitBreaker) (model : String) (now jitter : ℕ) (rest : List (ℕ × ℕ))
    → b.failure_threshold ≤ (health b model).failures + suc (length rest)
    → state_of (fail_all model ((now, jitter) ∷ rest) b) model ≡ open_state
failures_trip b model now jitter [] l =
    subst (λ h. h.state ≡ open_state) (sym (failure_step b model now jitter))
      (after_failure-opens b now jitter (health b model) l)
failures_trip b model now jitter ((now', jitter') ∷ rest) l =
    failures_trip (record_failure model now jitter b) model now' jitter' rest
      (rw (failure_step, after_failure-count, same_threshold) (omega arith))

mul_le : (a b j : ℕ) → a ≤ b → a * j ≤ b * j
mul_le a b zero l = omega arith
mul_le a b (suc j) l = let r = mul_le a b j l in omega arith

least : (b k : ℕ) → b ≤ b * 2 ^ k
least b zero = omega arith
least b (suc k) = let r = least b k in grind arith

backoff_bounds :
    (b : CircuitBreaker) (n : ℕ)
    → (min b.max_backoff b.base_backoff ≤ backoff b n) × (backoff b n ≤ b.max_backoff)
unfolding backoff
backoff_bounds b n =
    let r = least b.base_backoff (n - b.failure_threshold) in (omega arith, omega arith)

scaled_le : (a b j : ℕ) → a ≤ b → a * j / 1000 ≤ b * j / 1000
scaled_le a b j l = let r = mul_le a b j l in omega arith

tripped :
    (b : CircuitBreaker) (now jitter : ℕ) (h : ModelHealth)
    → b.failure_threshold ≤ h.failures + 1
    → (after_failure b now jitter h).next_retry ≡ now + backoff b (h.failures + 1) * jitter / 1000
unfolding after_failure
tripped b now jitter h l = ground arith

refused_early :
    (b : CircuitBreaker) (model : String) (begin end jitter : ℕ) (attempt : Attempt)
    → state_of b model ≡ open_state
    → begin < (health b model).next_retry
    → ((generate model begin end jitter attempt b).0 ≡ unreachable)
      × ((generate model begin end jitter attempt b).1 ≡ false)
unfolding generate can_execute may_execute
refused_early b model begin end jitter attempt h early = ground arith

-- A failure that trips the breaker keeps its model from being asked until a time that is at most
-- the greatest backoff times the jitter later, and at least the lesser of it and the base backoff,
-- times the jitter.
pub open_until :
    (b : CircuitBreaker) (model : String) (now jitter begin end jitter' : ℕ) (attempt : Attempt)
    → b.failure_threshold ≤ (health b model).failures + 1
    → begin < now + min b.max_backoff b.base_backoff * jitter / 1000
    → let b' = record_failure model now jitter b in
      ((health b' model).next_retry ≤ now + b.max_backoff * jitter / 1000)
      × ((generate model begin end jitter' attempt b').0 ≡ unreachable)
      × ((generate model begin end jitter' attempt b').1 ≡ false)
open_until b model now jitter begin end jitter' attempt l early =
    let h = health b model in
    let b' = record_failure model now jitter b in
    let n = h.failures + 1 in
    let (low, high) = backoff_bounds b n in
    let low' = scaled_le (min b.max_backoff b.base_backoff) (backoff b n) jitter low in
    let high' = scaled_le (backoff b n) b.max_backoff jitter high in
    let retry : (health b' model).next_retry ≡ now + backoff b n * jitter / 1000 =
      subst (λ x. x.next_retry ≡ now + backoff b n * jitter / 1000)
        (sym (failure_step b model now jitter)) (tripped b now jitter h l) in
    let opened : state_of b' model ≡ open_state =
      subst (λ x. x.state ≡ open_state) (sym (failure_step b model now jitter))
        (after_failure-opens b now jitter h l) in
    let (closed_to, silent) =
      refused_early b' model begin end jitter' attempt opened (omega arith) in
    (omega arith, closed_to, silent)
