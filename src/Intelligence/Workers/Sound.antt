-- ===== src/Intelligence/Workers/Sound.antt =====
-- orchestrator.py, `_submit`: slots are neither lost nor released twice, and a file has one
-- generation at a time.
use apate.Dict.{get-remove, get-put}
use apate.Prelude.{
  ℕ, ◌+◌, ◌≤◌, ◌≡◌, ◌↔◌, Bool, true, false, Option, none, some, arith, if◌then◌else◌, nat_eq,
  string_eq, ◌-◌, ◌<◌, refl, nat_beq_iff, Option-cases,
}
use apate.Dict
use apate.Dict.Weights.{weight, HasUniqueKeys, weight-put, put-HasUniqueKeys}
use apate.Intelligence.Workers.{
  Phase, forgotten, released, Task, Pool, new_pool, submitted, due, release_slot, submit,
  forget_future, Step, add_callback, complete, forget, release, next_phase, effect,
}

abbrev pub holds_slot : Task → ℕ
holds_slot task = elim task.phase [ released ↦ 0 | _ ↦ 1 ]

abbrev pub is_listed : Phase → Bool
is_listed forgotten = false
is_listed released = false
is_listed _ = true

abbrev inode_of : Option Task → Option ℕ
inode_of none = none
inode_of (some task) = if is_listed task.phase then some task.inode else none

-- The file that the future's generation is for, until `finished` has left the lock.
abbrev pub generated : Pool → ℕ → Option ℕ
generated p future = inode_of (Dict.get p.tasks future)

pub record IsSound (p : Pool) : Type 0 where
  pub slots_kept : p.slots + weight holds_slot p.tasks ≡ p.limit
  pub one_each :
      (i future : ℕ) → (Dict.get p.futures i ≡ some future) ↔ (generated p future ≡ some i)
  pub new_ones : (future : ℕ) → p.made ≤ future → Dict.get p.tasks future ≡ none
  pub keys_once : HasUniqueKeys p.tasks

pub new_pool-IsSound : (max_workers : ℕ) → IsSound (new_pool max_workers)
unfolding new_pool Dict.get weight
new_pool-IsSound max_workers = record {
  slots_kept = omega arith;
  one_each = λ i future. (λ e. absurd (cc), λ e. absurd (cc));
  new_ones = λ future le. refl;
  keys_once = tt;
}

-- The pool after a new future.
abbrev with_task : ℕ → Pool → Pool
with_task i p = record p {
  slots = p.slots - 1;
  futures = Dict.put p.futures i p.made;
  tasks = Dict.put p.tasks p.made (record { inode = i; phase = submitted });
  made = p.made + 1;
}

with_task-IsSound :
    (i : ℕ) (p : Pool)
    → IsSound p
    → 0 < p.slots
    → Dict.get p.futures i ≡ none
    → IsSound (with_task i p)
with_task-IsSound i p h slot free = record {
  slots_kept = ground (
    arith,
    h.slots_kept,
    h.new_ones p.made (omega arith),
    weight-put holds_slot p.tasks p.made (record { inode = i; phase = submitted }),
  );
  one_each = λ j future. ground (
    arith,
    h.one_each j future,
    h.one_each i future,
    h.new_ones future,
    h.one_each j p.made,
    get-put p.futures i j p.made,
    get-put p.tasks p.made future (record { inode = i; phase = submitted }),
    nat_beq_iff i j,
    nat_beq_iff p.made future,
  );
  new_ones = λ future le. ground (
    arith,
    h.new_ones future,
    nat_beq_iff p.made future,
    get-put p.tasks p.made future (record { inode = i; phase = submitted }),
  );
  keys_once = put-HasUniqueKeys p.tasks p.made _ h.keys_once;
}

-- A slot that is taken and given back at once.
release-acquire :
    (p : Pool)
    → IsSound p
    → 0 < p.slots
    → release_slot (record p { slots = p.slots - 1 }) ≡ record p { slots = p.slots }
unfolding release_slot
release-acquire p h slot = ground (arith, h.slots_kept)

pub submit-IsSound :
    (i : ℕ) (accepts : Bool) (p : Pool) → IsSound p → IsSound (submit i accepts p).1
unfolding submit
submit-IsSound i accepts p h =
    ground
      (arith, h, with_task-IsSound i p h, release-acquire p h, Option-cases (Dict.get p.futures i))

-- The pool after a future's phase has changed.
abbrev pub with_phase : ℕ → Task → Phase → Pool → Pool
with_phase future task phase p = record p {
  tasks = Dict.put p.tasks future (record task { phase = phase });
}

-- Callbacks that are added and generations that end change no list and no slot.
quiet-IsSound :
    (future : ℕ) (task : Task) (phase : Phase) (p : Pool)
    → IsSound p
    → Dict.get p.tasks future ≡ some task
    → holds_slot (record task { phase = phase }) ≡ holds_slot task
    → is_listed phase ≡ is_listed task.phase
    → IsSound (with_phase future task phase p)
quiet-IsSound future task phase p h e slot listed = record {
  slots_kept =
      ground
        (arith, h.slots_kept, weight-put holds_slot p.tasks future (record task { phase = phase }));
  one_each = λ j other. ground (
    arith,
    h.one_each j other,
    nat_beq_iff future other,
    get-put p.tasks future other (record task { phase = phase }),
  );
  new_ones = λ other le. ground (
    arith,
    h.new_ones other,
    nat_beq_iff future other,
    get-put p.tasks future other (record task { phase = phase }),
  );
  keys_once = put-HasUniqueKeys p.tasks future _ h.keys_once;
}

abbrev forgotten_pool : ℕ → Task → Pool → Pool
forgotten_pool future task p = record (with_phase future task forgotten p) {
  futures = Dict.remove p.futures task.inode;
}

forgotten_pool-IsSound :
    (future : ℕ) (task : Task) (p : Pool)
    → IsSound p
    → Dict.get p.tasks future ≡ some task
    → task.phase ≡ due
    → IsSound (forgotten_pool future task p)
forgotten_pool-IsSound future task p h e d = record {
  slots_kept = ground (
    arith,
    h.slots_kept,
    weight-put holds_slot p.tasks future (record task { phase = forgotten }),
  );
  one_each = λ j other. ground (
    arith,
    h.one_each j other,
    h.one_each task.inode future,
    h.one_each j future,
    h.one_each task.inode other,
    nat_beq_iff future other,
    nat_beq_iff task.inode j,
    get-remove p.futures task.inode j,
    get-put p.tasks future other (record task { phase = forgotten }),
  );
  new_ones = λ other le. ground (
    arith,
    h.new_ones other,
    nat_beq_iff future other,
    get-put p.tasks future other (record task { phase = forgotten }),
  );
  keys_once = put-HasUniqueKeys p.tasks future _ h.keys_once;
}

forget-IsSound :
    (future : ℕ) (task : Task) (p : Pool)
    → IsSound p
    → Dict.get p.tasks future ≡ some task
    → task.phase ≡ due
    → IsSound (forget_future future task.inode (with_phase future task forgotten p))
unfolding forget_future
forget-IsSound future task p h e d = ground (
  arith,
  forgotten_pool-IsSound future task p h e d,
  h.one_each task.inode future,
  nat_beq_iff future future,
)

abbrev released_pool : ℕ → Task → Pool → Pool
released_pool future task p = record (with_phase future task released p) { slots = p.slots + 1 }

-- Never is a slot released that was not taken.
release-adds :
    (future : ℕ) (task : Task) (p : Pool)
    → IsSound p
    → Dict.get p.tasks future ≡ some task
    → task.phase ≡ forgotten
    → release_slot (with_phase future task released p) ≡ released_pool future task p
unfolding release_slot
release-adds future task p h e d =
    ground
      (arith, h.slots_kept, weight-put holds_slot p.tasks future (record task { phase = released }))

released_pool-IsSound :
    (future : ℕ) (task : Task) (p : Pool)
    → IsSound p
    → Dict.get p.tasks future ≡ some task
    → task.phase ≡ forgotten
    → IsSound (released_pool future task p)
released_pool-IsSound future task p h e d = record {
  slots_kept = ground (
    arith,
    h.slots_kept,
    weight-put holds_slot p.tasks future (record task { phase = released }),
  );
  one_each = λ j other. ground (
    arith,
    h.one_each j other,
    nat_beq_iff future other,
    get-put p.tasks future other (record task { phase = released }),
  );
  new_ones = λ other le. ground (
    arith,
    h.new_ones other,
    nat_beq_iff future other,
    get-put p.tasks future other (record task { phase = released }),
  );
  keys_once = put-HasUniqueKeys p.tasks future _ h.keys_once;
}

pub effect-IsSound :
    (step : Step) (future : ℕ) (task : Task) (phase : Phase) (p : Pool)
    → IsSound p
    → Dict.get p.tasks future ≡ some task
    → next_phase step task.phase ≡ some phase
    → IsSound (effect step future task.inode (with_phase future task phase p))
unfolding next_phase effect
effect-IsSound add_callback future task phase p h e d =
    ground (arith, quiet-IsSound future task phase p h e)
effect-IsSound complete future task phase p h e d =
    ground (arith, quiet-IsSound future task phase p h e)
effect-IsSound forget future task phase p h e d = ground (arith, forget-IsSound future task p h e)
effect-IsSound release future task phase p h e d =
    ground (arith, release-adds future task p h e, released_pool-IsSound future task p h e)
