-- ===== src/Watcher/Streamer/Tests.antt =====
-- Two subscribers that count rows.
use apate.Prelude.{
  ℕ, ◌+◌, String, ◌≡◌, refl, Bool, true, false, ◌&&◌, Option, none, some, List, [], ◌∷◌, arith,
  nat_beq, if◌then◌else◌, nat_eq, string_eq,
}
use apate.Dict.{Dict}
use apate.Watcher.Streamer.{
  null, LogRow, Streamer, new_streamer, subscribe, remove_first, unsubscribe, start, stop,
  fetch_new_events, prepared, notify_subscribers, deliver, poll, reversed, get_recent_events,
}
use apate.Watcher.Streamer.CatchUp.{whole_polls, polls_catch_up}

abbrev no_fields : String → Option (Dict String String)
no_fields t = none

abbrev numbered : ℕ → LogRow
numbered id = record {
  id = id;
  timestamp = none;
  operation = none;
  path = none;
  metadata = null;
  session_id = none;
}

-- Callback 1 counts, callback 2 raises at the row 3.
abbrev count_calls : ℕ → LogRow → ℕ → Bool × ℕ
count_calls subscriber row n =
    if nat_beq subscriber 2 && nat_beq row.id 3 then (false, n) else (true, n + 1)

abbrev three_rows : List LogRow
three_rows = numbered 1 ∷ numbered 3 ∷ numbered 4 ∷ []

abbrev count_from : Streamer → ℕ × ℕ
unfolding poll fetch_new_events deliver notify_subscribers prepared subscribe unsubscribe
    remove_first start stop get_recent_events reversed
count_from streamer =
    let next = poll no_fields count_calls (some three_rows) streamer 0 in (next.0.last_id, next.1)

-- The row 3 is counted by the first callback, and stays the next one.
stays_behind : count_from (start (subscribe 2 (subscribe 1 new_streamer))) ≡ (1, 3)
unfolding count_from
stays_behind = refl

goes_through : count_from (start (unsubscribe 2 (subscribe 2 (subscribe 1 new_streamer)))) ≡ (4, 3)
unfolding count_from
goes_through = refl

abbrev one_counter : Streamer
one_counter = record { subscribers = 1 ∷ []; running = true; last_id = 0 }

polls_catch_up_example :
    (whole_polls no_fields count_calls 1 three_rows one_counter 0).0.last_id ≡ 4
unfolding notify_subscribers prepared
polls_catch_up_example =
    polls_catch_up no_fields count_calls 1 three_rows one_counter 0 (omega arith)
      (omega arith, (omega arith, (omega arith, tt))) (λ row n. refl) refl refl
