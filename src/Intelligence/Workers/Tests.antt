-- ===== src/Intelligence/Workers/Tests.antt =====
-- Two workers and three files.
use apate.Prelude.{
  ℕ, ◌*◌, ◌≤◌, ◌≡◌, refl, ◌⊎◌, true, none, some, List, [], ◌∷◌, ◌++◌, nat_eq, string_eq, Option,
}
use apate.Dict.{Dict}
use apate.Dict
use apate.Intelligence.Workers.{
  Pool, new_pool, release_slot, no_slot, submit, Step, add_callback, complete, forget, release,
  next_phase, forget_future, effect, advance, Move, asked, went_on, move, run,
}
use apate.Intelligence.Workers.Sound.{IsSound}
use apate.Intelligence.Workers.Runs.{run-IsSound, advance_all, slots_return}

abbrev busy : List Move
busy =
    asked 5 true
    ∷ asked 6 true
    ∷ asked 7 true
    ∷ asked 5 true
    ∷ went_on complete 0
    ∷ went_on add_callback 0
    ∷ went_on forget 0
    ∷ []

abbrev finish_both : List (Step × ℕ)
finish_both = (release, 0) ∷ (add_callback, 1) ∷ (complete, 1) ∷ (forget, 1) ∷ (release, 1) ∷ []

abbrev shown : Pool → ℕ × List (ℕ × ℕ)
unfolding run move submit advance advance_all next_phase effect forget_future release_slot new_pool
    Dict.get Dict.put Dict.remove
shown p = (p.slots, p.futures)

one_left : shown (run busy (new_pool 2)) ≡ (0, (6, 1) ∷ [])
unfolding shown
one_left = refl

third_refused : (submit 7 true (run busy (new_pool 2))).0 ≡ no_slot
unfolding shown
third_refused = refl

abbrev after : Option Pool → ℕ × List (ℕ × ℕ)
unfolding shown
after none = (7, [])
after (some q) = shown q

all_free : after (advance_all finish_both (run busy (new_pool 2))) ≡ (2, [])
unfolding after
all_free = refl

run-IsSound_example : let p = run busy (new_pool 2) in IsSound p × (p.limit ≡ 2)
run-IsSound_example = run-IsSound 2 busy

-- The first future has released its slot, the second can complete.
abbrev almost : Pool
almost = run (busy ++ (went_on release 0 ∷ went_on add_callback 1 ∷ [])) (new_pool 2)

slots_return_example :
    (2 ≤ 4 * 2)
    × (((step : Step) × (future : ℕ) × (r : Pool) × (advance step future almost ≡ some r))
        ⊎ ((almost.slots ≡ 2) × ((i : ℕ) → Dict.get almost.futures i ≡ none)))
unfolding shown
slots_return_example = slots_return 2 busy ((release, 0) ∷ (add_callback, 1) ∷ []) almost refl
