-- ===== src/Intelligence/Workers/Runs.antt =====
-- orchestrator.py, `_submit`: what holds after any moves, and that every slot comes back.
use apate.Prelude.{
  ℕ, ◌+◌, ◌≡◌, refl, inl, inr, some, arith, nat_eq, string_eq, Option-cases, ◌*◌, ◌≤◌, ◌<◌, ◌∙◌,
  ◌⊎◌, Bool, Option, none, List, [], ◌∷◌, length,
}
use apate.Dict.{Dict}
use apate.Dict
use apate.Dict.Weights.{weight, weight-put, measured-get, weight_scaled, weight-cases}
use apate.Intelligence.Workers.{
  Phase, submitted, completed, attached, due, forgotten, released, Task, Pool, release_slot, Step,
  add_callback, complete, forget, release, next_phase, forget_future, effect, advance, new_pool,
  submit, Move, asked, went_on, move, run,
}
use apate.Intelligence.Workers.Sound.{
  IsSound, holds_slot, new_pool-IsSound, submit-IsSound, with_phase, effect-IsSound,
}

effect_keeps :
    (step : Step) (future i : ℕ) (p : Pool)
    → ((effect step future i p).tasks ≡ p.tasks) × ((effect step future i p).limit ≡ p.limit)
unfolding effect forget_future release_slot
effect_keeps add_callback future i p = (refl, refl)
effect_keeps complete future i p = (refl, refl)
effect_keeps forget future i p = ground (arith, Option-cases (Dict.get p.futures i))
effect_keeps release future i p = ground arith

-- The steps that a future has before it.
abbrev left : Task → ℕ
left task = elim task.phase [
  | submitted ↦ 4
  | completed ↦ 3
  | attached ↦ 3
  | due ↦ 2
  | forgotten ↦ 1
  | released ↦ 0
]

abbrev pub work : Pool → ℕ
work p = weight left p.tasks

next_phase-left :
    (step : Step) (task : Task) (phase : Phase)
    → next_phase step task.phase ≡ some phase
    → left (record task { phase = phase }) + 1 ≡ left task
unfolding next_phase
next_phase-left add_callback task phase e = ground arith
next_phase-left complete task phase e = ground arith
next_phase-left forget task phase e = ground arith
next_phase-left release task phase e = ground arith

advance-IsSound :
    (step : Step) (future : ℕ) (p q : Pool)
    → IsSound p
    → advance step future p ≡ some q
    → IsSound q × (work q + 1 ≡ work p) × (q.limit ≡ p.limit)
unfolding advance
advance-IsSound step future p q h e = elim (Option-cases (Dict.get p.tasks future)) [
  | inl none_there ↦ ground arith
  | inr (task, there) ↦ elim (Option-cases (next_phase step task.phase)) [
    | inl stuck ↦ ground arith
    | inr (phase, goes) ↦
        let at : effect step future task.inode (with_phase future task phase p) ≡ q =
          ground arith in
        ground (
          arith,
          at,
          effect-IsSound step future task phase p h there goes,
          effect_keeps step future task.inode (with_phase future task phase p),
          next_phase-left step task phase goes,
          weight-put left p.tasks future (record task { phase = phase }),
        )
  ]
]

submit_limit : (i : ℕ) (accepts : Bool) (p : Pool) → (submit i accepts p).1.limit ≡ p.limit
unfolding submit release_slot
submit_limit i accepts p = ground (arith, Option-cases (Dict.get p.futures i))

move-IsSound : (m : Move) (p : Pool) → IsSound p → IsSound (move m p) × ((move m p).limit ≡ p.limit)
unfolding move
move-IsSound (asked i accepts) p h = (submit-IsSound i accepts p h, submit_limit i accepts p)
move-IsSound (went_on step future) p h = elim (Option-cases (advance step future p)) [
  | inl none_there ↦ rw none_there (h, refl)
  | inr (q, goes) ↦ rw goes (ground (arith, advance-IsSound step future p q h goes))
]

run_from-IsSound :
    (moves : List Move) (p : Pool)
    → IsSound p
    → IsSound (run moves p) × ((run moves p).limit ≡ p.limit)
unfolding run
run_from-IsSound [] p h = (h, refl)
run_from-IsSound (m ∷ moves) p h =
    let (sound, same) = move-IsSound m p h in
    let (sound', same') = run_from-IsSound moves (move m p) sound in (sound', same' ∙ same)

-- The pool is sound after any moves, whatever their order: the free slots and the futures that hold
-- one add up to max_workers, and `_futures` lists for each file its one future that `finished` has
-- not yet taken out.
pub run-IsSound :
    (max_workers : ℕ) (moves : List Move)
    → let p = run moves (new_pool max_workers) in IsSound p × (p.limit ≡ max_workers)
unfolding new_pool
run-IsSound max_workers moves =
    run_from-IsSound moves (new_pool max_workers) (new_pool-IsSound max_workers)

-- These steps of these futures, each of which can happen at its turn.
unfoldable pub advance_all : List (Step × ℕ) → Pool → Option Pool
advance_all [] p = some p
advance_all ((step, future) ∷ steps) p = elim (advance step future p) [
  | none ↦ none
  | some q ↦ advance_all steps q
]

advance_all-IsSound :
    (steps : List (Step × ℕ)) (p q : Pool)
    → IsSound p
    → advance_all steps p ≡ some q
    → IsSound q × (work q + length steps ≡ work p) × (q.limit ≡ p.limit)
unfolding advance_all
advance_all-IsSound [] p q h e = ground (arith)
advance_all-IsSound ((step, future) ∷ steps) p q h e = elim (Option-cases (advance step future p)) [
  | inl stuck ↦ ground arith
  | inr (r, goes) ↦
      let (sound, less, same) = advance-IsSound step future p r h goes in
      let rest : advance_all steps r ≡ some q = ground arith in
      ground (arith, advance_all-IsSound steps r q sound rest)
]

advance-goes :
    (step : Step) (future : ℕ) (task : Task) (phase : Phase) (p : Pool)
    → Dict.get p.tasks future ≡ some task
    → next_phase step task.phase ≡ some phase
    → (r : Pool) × (advance step future p ≡ some r)
unfolding advance
advance-goes step future task phase p there goes =
    (effect step future task.inode (with_phase future task phase p), ground arith)

next_phase-cases :
    (phase : Phase)
    → (phase ≡ released) ⊎ ((step : Step) × (next : Phase) × (next_phase step phase ≡ some next))
unfolding next_phase
next_phase-cases submitted = inr (complete, completed, refl)
next_phase-cases completed = inr (add_callback, due, refl)
next_phase-cases attached = inr (complete, due, refl)
next_phase-cases due = inr (forget, forgotten, refl)
next_phase-cases forgotten = inr (release, released, refl)
next_phase-cases released = inl refl

-- A future with steps before it can take one.
task-advances :
    (future : ℕ) (task : Task) (p : Pool)
    → Dict.get p.tasks future ≡ some task
    → 0 < left task
    → (step : Step) × (r : Pool) × (advance step future p ≡ some r)
task-advances future task p there more = elim (next_phase-cases task.phase) [
  | inl over ↦ absurd (ground arith)
  | inr (step, phase, goes) ↦
      let (r, e) = advance-goes step future task phase p there goes in (step, r, e)
]

-- Where nothing is left to do, the slots are all free and no future is listed.
all_back :
    (p : Pool)
    → IsSound p
    → work p ≡ 0
    → (p.slots ≡ p.limit) × ((i : ℕ) → Dict.get p.futures i ≡ none)
all_back p h e = (
  ground (arith, h.slots_kept, weight_scaled holds_slot left 1 (λ t. ground arith) p.tasks),
  λ i. elim (Option-cases (Dict.get p.futures i)) [
    | inl free ↦ free
    | inr (future, listed) ↦
        absurd (ground (arith, h.one_each i future, measured-get left p.tasks future))
  ],
)

-- After any moves, the futures go on for at most 4 * max_workers steps unless something is
-- submitted, and as long as a slot is taken or a future listed, one of them can take a step.
pub slots_return :
    (max_workers : ℕ) (moves : List Move) (steps : List (Step × ℕ)) (q : Pool)
    → advance_all steps (run moves (new_pool max_workers)) ≡ some q
    → (length steps ≤ 4 * max_workers)
      × (((step : Step) × (future : ℕ) × (r : Pool) × (advance step future q ≡ some r))
          ⊎ ((q.slots ≡ max_workers) × ((i : ℕ) → Dict.get q.futures i ≡ none)))
slots_return max_workers moves steps q e =
    let start = run moves (new_pool max_workers) in
    let (before, limit) = run-IsSound max_workers moves in
    let (sound, less, same) = advance_all-IsSound steps start q before e in
    (
      ground (
        arith,
        limit,
        less,
        before.slots_kept,
        weight_scaled left holds_slot 4 (λ t. ground arith) start.tasks,
      ),
      elim (weight-cases left q.tasks sound.keys_once) [
        | inl over ↦ inr (ground (arith, all_back q sound over))
        | inr (future, task, there, more) ↦
            let (step, r, goes) = task-advances future task q there more in
            inl (step, future, r, goes)
      ],
    )
