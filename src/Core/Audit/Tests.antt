-- ===== src/Core/Audit/Tests.antt =====
-- A run with a lost connection, an unconfirmed commit and a full outbox.
use apate.Prelude.{ℕ, ◌≡◌, refl, List, [], ◌∷◌, nat_eq, string_eq}
use apate.Core.Audit.{
  Event, Store, has_id, insert, insert_all, delete, acknowledge, append, pending, failed,
  unconfirmed, delivered, deliver,
}
use apate.Core.Audit.Exactly.{Step, appends, delivers, step, run, empty, delivery_exactly_once}

abbrev steps : List (Step ℕ)
steps =
    appends "a" 10
    ∷ delivers unconfirmed
    ∷ appends "b" 20
    ∷ appends "c" 30
    ∷ delivers failed
    ∷ delivers delivered
    ∷ appends "d" 70000
    ∷ []

-- Its line opens what a test has to compute with.
after : List (Step ℕ) → Store ℕ × List (Event ℕ)
unfolding run step append deliver pending has_id insert insert_all delete acknowledge
after cs = run (λ n. n) cs (empty (λ n. n) 2)

after_steps : after steps ≡ (
  record { outbox = []; audit_log = ("a", 10) ∷ ("b", 20) ∷ []; limit = 2 },
  ("a", 10) ∷ ("b", 20) ∷ [],
)
unfolding after
after_steps = refl

delivery_exactly_once_example :
    (run (λ n. n) steps (empty (λ n. n) 2)).0.audit_log ≡ (run (λ n. n) steps (empty (λ n. n) 2)).1
unfolding after
delivery_exactly_once_example =
    (delivery_exactly_once (λ n. n) 2 steps (refl, (refl, (refl, (refl, tt))))).2 refl
