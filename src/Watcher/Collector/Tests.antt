-- ===== src/Watcher/Collector/Tests.antt =====
-- A session of two rows, whose first save meets a failing Redis and whose first flush fails.
use apate.Prelude.{
  ℕ, String, ◌≡◌, refl, true, false, Option, none, some, List, [], ◌∷◌, arith, nat_eq, string_eq,
  is_empty, pos, rsplit,
}
use apate.Dict.{Dict}
use apate.Dict
use apate.Core.Evidence.{upsert, flush_evidence, load_evidence_progress, save_evidence_progress}
use apate.Watcher.Streamer.{
  null, LogRow, fetch_new_events, prepared, notify_subscribers, deliver, poll,
}
use apate.Watcher.Streamer.Progress.{StandsAt, poll_all}
use apate.Watcher.Collector.{
  fresh_evidence, noted, add_visit, Payload, Fate, Collector, fate_of, Tools, on_command, on_result,
  on_visit, on_disconnect, absorb, save_evidence, flush, assessed, get_evidence, store,
  process_loaded, process_event,
}
use apate.Watcher.Collector.Restarts.{
  callback, IsAhead, run_process, run_processes, evidence_exactly_once,
}

abbrev no_objects : String → Option (Dict String String)
no_objects t = none

-- No pattern matches, and every session lasts 60 seconds.
abbrev plain_tools : Tools
plain_tools = record {
  search = λ pattern t. false;
  lower = λ t. t;
  signatures = [];
  elapsed = λ begin end. some (pos 60);
  instant = λ t. 0;
}

abbrev row_of : ℕ → String → String → LogRow
row_of id operation path = record {
  id = id;
  timestamp = some "2026-01-01T00:00:00";
  operation = some operation;
  path = some path;
  metadata = null;
  session_id = some "s";
}

abbrev two_rows : List LogRow
two_rows = row_of 1 "read" "/etc/passwd" ∷ row_of 2 "ssh_disconnect" "" ∷ []

abbrev well : Fate
well = record {
  loads = true;
  saves = true;
  caches = true;
  connected = true;
  flushes = true;
  uncaches = true;
  now = "";
}

abbrev unlucky : Collector
unlucky = record {
  tables = record { session_evidence = []; evidence_progress = [] };
  cache = [];
  sessions = [];
  fates = record well { caches = false } ∷ well ∷ record well { flushes = false } ∷ [];
}

abbrev files_of : Option (ℕ × Payload) → List (String × List String) × ℕ
files_of none = ([], 0)
files_of (some (last, p)) = (p.evidence.traversal_graph, p.evidence.last_event_id)

abbrev polled : List (Option ℕ) → ℕ × List (String × List String) × ℕ
unfolding poll_all poll fetch_new_events deliver notify_subscribers prepared process_event fate_of
    process_loaded get_evidence store absorb on_visit on_command on_result on_disconnect add_visit
    noted rsplit assessed save_evidence flush flush_evidence upsert save_evidence_progress
    load_evidence_progress fresh_evidence is_empty Dict.get Dict.put Dict.remove run_processes
polled polls =
    let next = run_process no_objects plain_tools two_rows polls unlucky in
    let files = files_of (Dict.get next.1.tables.evidence_progress "s") in
    (next.0.last_id, files.0, files.1)

-- The first poll ends at the first row, which is saved all the same.
first_poll : polled (some 2 ∷ []) ≡ (0, ("/etc", "passwd" ∷ []) ∷ [], 1)
unfolding polled
first_poll = refl

-- In the second the row is passed over, and the flush fails; in the third all is passed.
three_polls : polled (some 2 ∷ some 2 ∷ some 2 ∷ []) ≡ (2, ("/etc", "passwd" ∷ []) ∷ [], 2)
unfolding polled
three_polls = refl

evidence_exactly_once_example :
    let next =
      run_process no_objects plain_tools two_rows
        (some 2 ∷ none ∷ [])
        (run_processes no_objects plain_tools two_rows ((some 1 ∷ []) ∷ []) unlucky) in
    StandsAt no_objects
      (callback no_objects plain_tools)
      two_rows
      (IsAhead no_objects plain_tools)
      next.0.last_id
      next.1
unfolding is_empty
evidence_exactly_once_example =
    evidence_exactly_once no_objects plain_tools two_rows ((some 1 ∷ []) ∷ []) (some 2 ∷ none ∷ [])
      unlucky (omega arith, (omega arith, tt)) (refl, (refl, tt)) refl
