-- ===== src/Intelligence/Breaker/Machine.antt =====
-- The breaker as a state machine: one probe at a time, and what a lost probe does.
use apate.Prelude.{
  ℕ, String, ◌≡◌, false, arith, if◌then◌else◌, ◌==◌, nat_eq, string_eq, ==_refl, ◌≤◌, Bool, List,
  [], ◌∷◌, All,
}
use apate.Dict.{get-put}
use apate.Intelligence.Breaker.{
  other_error, Generation, BreakerState, half_open, ModelHealth, CircuitBreaker, health, set_health,
  may_execute, can_execute, Attempt, unreachable, generate, open_state,
}

pub health-set_health :
    (b : CircuitBreaker) (model other : String) (h : ModelHealth)
    → health (set_health b model h) other ≡ (if model == other then h else health b other)
unfolding health set_health
health-set_health b model other h = rw get-put (ground arith)

abbrev pub state_of : CircuitBreaker → String → BreakerState
state_of b model = (health b model).state

-- While a model is half open, every request for it is refused without asking the model, at any time
-- and whatever the model would do, and the model stays half open.
half_open_refuses :
    (b : CircuitBreaker) (model : String) (begin end jitter : ℕ) (attempt : Attempt)
    → state_of b model ≡ half_open
    → let (g, asked, b') = generate model begin end jitter attempt b in
      (g ≡ unreachable) × (asked ≡ false) × (state_of b' model ≡ half_open)
unfolding generate can_execute may_execute
half_open_refuses b model begin end jitter attempt h =
    ground (arith, health-set_health b model model (health b model), ==_refl model)

-- One request of a model: the times of its start and its end, the jitter, and how it would go.
abbrev pub Request : Type 0
Request = ℕ × ℕ × ℕ × Attempt

-- The answers to requests of one model, one after another, and whether the model was asked.
unfoldable pub serve : String → List Request → CircuitBreaker → List (Generation × Bool)
serve model [] b = []
serve model ((begin, end, jitter, attempt) ∷ rest) b =
    let (g, asked, b') = generate model begin end jitter attempt b in
    (g, asked) ∷ serve model rest b'

abbrev pub IsRefused : Generation × Bool → Type 0
IsRefused (g, asked) = (g ≡ unreachable) × (asked ≡ false)

half_open-serve :
    (model : String) (requests : List Request) (b : CircuitBreaker)
    → state_of b model ≡ half_open
    → All IsRefused (serve model requests b)
unfolding serve
half_open-serve model [] b h = tt
half_open-serve model ((begin, end, jitter, attempt) ∷ rest) b h =
    let (refused, unasked, still) = half_open_refuses b model begin end jitter attempt h in
    (
      (refused, unasked),
      half_open-serve model rest (generate model begin end jitter attempt b).2 still,
    )

probe_lost :
    (b : CircuitBreaker) (model : String) (begin end jitter : ℕ)
    → state_of b model ≡ open_state
    → (health b model).next_retry ≤ begin
    → state_of (generate model begin end jitter other_error b).2 model ≡ half_open
unfolding generate can_execute may_execute
probe_lost b model begin end jitter h due = ground (
  arith,
  health-set_health b model model (record (health b model) { state = half_open }),
  ==_refl model,
)

-- When the probe of an open model, at its time of retry or later, ends in an exception that is not
-- reported to the breaker, every later request of the model is refused without asking it, however
-- many there are, whenever they come and however well the model would answer.
pub lost_probe_refuses :
    (b : CircuitBreaker) (model : String) (begin end jitter : ℕ) (later : List Request)
    → state_of b model ≡ open_state
    → (health b model).next_retry ≤ begin
    → All IsRefused (serve model later (generate model begin end jitter other_error b).2)
lost_probe_refuses b model begin end jitter later h due =
    half_open-serve model later (generate model begin end jitter other_error b).2
      (probe_lost b model begin end jitter h due)
