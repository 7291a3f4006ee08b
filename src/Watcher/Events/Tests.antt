-- ===== src/Watcher/Events/Tests.antt =====
-- A written key and instances of the theorems about events.
use apate.Prelude.{
  has_prefix, has_substring, has_suffix, ℕ, ◌*◌, ◌≤◌, String, ◌≡◌, refl, ◌↔◌, Bool, true, Option,
  some, List, [], ◌∷◌, nat_eq, string_eq, length, is_empty, same_text,
}
use apate.Dict
use apate.Dict.{Dict}
use apate.Watcher.Events.{
  AuditEvent, info, EventProcessor, append_bounded, added, appended, recorded, flag, operation_in,
  recent, any_in, detect_enumeration, detect_privilege_escalation, detect_data_exfiltration,
  detect_persistence, detect_lateral_movement, detect_all, process_event, clear_window,
  clear_old_data, get_session_summary,
}
use apate.Watcher.Events.Scores.{process_event-IsScored}

abbrev key_event : AuditEvent
key_event = record {
  id = some 3;
  timestamp = some "2026-01-01T00:00:00";
  session_id = some "sess_001";
  operation = some "write";
  path = some "/root/.ssh/authorized_keys";
}

abbrev started : EventProcessor
started = record { event_window = []; session_activity = []; file_access_patterns = [] }

abbrev shown : AuditEvent → List String × ℕ
unfolding process_event recorded append_bounded added appended flag operation_in recent any_in
    detect_enumeration detect_privilege_escalation detect_data_exfiltration detect_persistence
    detect_lateral_movement detect_all has_substring has_prefix has_suffix same_text is_empty
    Dict.get Dict.put get_session_summary clear_window clear_old_data
shown event = let a = (process_event event started).0 in (a.patterns, a.risk_score)

ssh_key : shown key_event ≡ ("sensitive_file_access" ∷ "ssh_key_installation" ∷ [], 60)
unfolding shown
ssh_key = refl

process_event-IsScored_example :
    let a = (process_event key_event started).0 in
    (length a.patterns ≤ 10)
    × (length a.tags ≡ length a.patterns)
    × (length a.patterns * 10 ≤ a.risk_score)
    × (a.risk_score ≤ length a.patterns * 40)
    × ((a.risk_level ≡ info) ↔ (length a.patterns ≡ 0))
process_event-IsScored_example = process_event-IsScored key_event started

-- Every time is before the cutoff.
long_ago : String → Option Bool
long_ago text = some true
