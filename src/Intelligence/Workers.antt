-- ===== src/Intelligence/Workers.antt =====
-- src/chronos/intelligence/orchestrator.py, `_submit`: the bounded pool of workers. A slot is taken
-- before a generation is submitted and given back by the callback `finished`. What the threads do
-- one after the other under the lock, or without it, are the moves; they may come in any order.
use apate.Dict.{Dict}
pub mod Sound
pub mod Runs
pub mod Tests
use apate.Prelude.{
  ℕ, ◌+◌, ◌-◌, Bool, Option, none, some, List, [], ◌∷◌, ltb, nat_beq, if◌then◌else◌, nat_eq,
  string_eq, get_or,
}
use apate.Dict

-- Where a future is between `_pool.submit` and the end of `finished`: the generation runs, and its
-- callback is added (`attached`) or not (`submitted`, and `completed` when the generation ended
-- before); the callback is about to run (`due`), has left the lock, or has released the slot.
pub data Phase : Type 0 where
  submitted completed attached due forgotten released : Phase

pub record Task : Type 0 where
  pub inode : ℕ
  pub phase : Phase

-- `_slots`, a BoundedSemaphore with its initial value `limit`; `_futures` by inode; and the futures
-- made so far, by their identity.
pub record Pool : Type 0 where
  pub limit : ℕ
  pub slots : ℕ
  pub futures : Dict ℕ ℕ
  pub tasks : Dict ℕ Task
  pub made : ℕ

unfoldable pub new_pool : ℕ → Pool
new_pool max_workers = record {
  limit = max_workers;
  slots = max_workers;
  futures = [];
  tasks = [];
  made = 0;
}

-- `_slots.release()`: beyond the initial value it raises ValueError and changes nothing.
unfoldable pub release_slot : Pool → Pool
release_slot p = if ltb p.slots p.limit then record p { slots = p.slots + 1 } else p

pub data Submission : Type 0 where
  joined started : ℕ → Submission
  no_slot raised : Submission

-- The part of `_submit` under `_futures_lock`. `accepts` says that `_pool.submit` does not raise.
unfoldable pub submit : ℕ → Bool → Pool → Submission × Pool
submit i accepts p = elim (Dict.get p.futures i) [
  | some future ↦ (joined future, p)
  | none ↦
      if nat_beq p.slots 0
      then (no_slot, p)
      else (let acquired = record p { slots = p.slots - 1 } in
          if accepts
          then (
            started p.made,
            record acquired {
              futures = Dict.put p.futures i p.made;
              tasks = Dict.put p.tasks p.made (record { inode = i; phase = submitted });
              made = p.made + 1;
            },
          )
          else (raised, release_slot acquired))
]

pub data Step : Type 0 where
  add_callback complete forget release : Step

-- What a step does to the future's phase, when it can happen.
unfoldable pub next_phase : Step → Phase → Option Phase
next_phase add_callback submitted = some attached
next_phase add_callback completed = some due
next_phase complete submitted = some completed
next_phase complete attached = some due
next_phase forget due = some forgotten
next_phase release forgotten = some released
next_phase _ _ = none

-- if self._futures.get(inode) is completed: del self._futures[inode]
unfoldable pub forget_future : ℕ → ℕ → Pool → Pool
forget_future future i p = elim (Dict.get p.futures i) [
  | none ↦ p
  | some other ↦ if nat_beq other future then record p { futures = Dict.remove p.futures i } else p
]

unfoldable pub effect : Step → ℕ → ℕ → Pool → Pool
effect add_callback future i p = p
effect complete future i p = p
effect forget future i p = forget_future future i p
effect release future i p = release_slot p

-- `future.add_done_callback`, the end of the generation, and the two halves of `finished`.
unfoldable pub advance : Step → ℕ → Pool → Option Pool
advance step future p = elim (Dict.get p.tasks future) [
  | none ↦ none
  | some task ↦ elim (next_phase step task.phase) [
    | none ↦ none
    | some phase ↦ some (
        effect step future task.inode
          (record p { tasks = Dict.put p.tasks future (record task { phase = phase }) }))
  ]
]

pub data Move : Type 0 where
  asked : ℕ → Bool → Move
  went_on : Step → ℕ → Move

-- A move that cannot happen leaves the pool alone.
unfoldable pub move : Move → Pool → Pool
move (asked i accepts) p = (submit i accepts p).1
move (went_on step future) p = get_or p (advance step future p)

unfoldable pub run : List Move → Pool → Pool
run [] p = p
run (m ∷ moves) p = run moves (move m p)
