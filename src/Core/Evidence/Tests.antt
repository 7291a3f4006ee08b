-- ===== src/Core/Evidence/Tests.antt =====
-- Two writes of one session out of order, and an instance of the theorem.
use apate.Prelude.{String, ◌≡◌, refl, true, List, [], ◌∷◌, arith, nat_eq, string_eq}
use apate.Dict
use apate.Dict.{Dict}
use apate.Core.Evidence.{
  Tables, upsert, flush_evidence, load_evidence_progress, save_evidence_progress,
}
use apate.Core.Evidence.Fenced.{Flush, HasRead, flush_all, evidence_never_goes_back}

abbrev stored_once : Tables String
stored_once = record {
  session_evidence =
      ("s", record { start_time = 5; last_event_id = 40; fields = "two commands" }) ∷ [];
  evidence_progress = [];
}

abbrev late_write : List (Flush String)
late_write =
    (true, true, "s", record { start_time = 6; last_event_id = 30; fields = "one command" }) ∷ []

abbrev after_late : Tables String → Tables String
unfolding flush_evidence upsert save_evidence_progress load_evidence_progress Dict.get Dict.put
after_late t = flush_all late_write t

late_write_ignored : (after_late stored_once).session_evidence ≡ stored_once.session_evidence
unfolding after_late
late_write_ignored = refl

evidence_never_goes_back_example : HasRead (flush_all late_write stored_once) "s" 5 40
unfolding after_late
evidence_never_goes_back_example =
    evidence_never_goes_back late_write stored_once "s" 5 40 (record {
      row = record { start_time = 5; last_event_id = 40; fields = "two commands" };
      there = refl;
      same_start = refl;
      no_less = omega arith;
    })
