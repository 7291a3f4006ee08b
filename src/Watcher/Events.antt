-- ===== src/Watcher/Events.antt =====
-- src/chronos/watcher/event_processor.py: the patterns and the risk of each audit event, and the
-- sliding window and the sessions' activity that they are read from. A field that is `none` is a
-- key that the event lacks, so that `event.get('path', '')` is ''; a key with the value None, on
-- which `in` raises TypeError, is not modelled.
pub mod Scores
pub mod Window
pub mod Tests
use apate.Prelude.{
  has_prefix, has_substring, has_suffix, ℕ, suc, ◌+◌, ◌-◌, String, Bool, true, false, ◌&&◌, ◌||◌,
  Option, none, some, List, [], ◌∷◌, ◌++◌, ltb, leb, if◌then◌else◌, ◌==◌, nat_eq, string_eq, get_or,
  length, take, drop, any, select, contains, is_empty,
}
use apate.Dict
use apate.Dict.{Dict}

pub record AuditEvent : Type 0 where
  pub id : Option ℕ
  pub timestamp : Option String
  pub session_id : Option String
  pub operation : Option String
  pub path : Option String

-- The strings of `risk_level`.
pub data RiskLevel : Type 0 where
  critical high medium low info : RiskLevel

pub record Analysis : Type 0 where
  pub event_id : Option ℕ
  pub timestamp : Option String
  pub session_id : Option String
  pub patterns : List String
  pub risk_score : ℕ
  pub tags : List String
  pub risk_level : RiskLevel

pub record EventProcessor : Type 0 where
  pub event_window : List AuditEvent
  pub session_activity : Dict String (List AuditEvent)
  pub file_access_patterns : Dict String (List String)

abbrev pub window_limit : ℕ
window_limit = 10000

-- deque(maxlen=n).append(x)
unfoldable pub append_bounded {ℓ} : {A : Type ℓ} → ℕ → List A → A → List A
append_bounded n xs x = drop (suc (length xs) - n) (xs ++ x ∷ [])

-- set.add
unfoldable pub added : String → List String → List String
added x xs = if contains xs x then xs else xs ++ x ∷ []

-- d[k].append(x) on a defaultdict(list)
unfoldable pub appended :
    Dict String (List AuditEvent) → String → AuditEvent → Dict String (List AuditEvent)
appended d k x = Dict.put d k (get_or [] (Dict.get d k) ++ x ∷ [])

-- The event's place in the window, its session's activity and its session's files.
unfoldable pub recorded : AuditEvent → EventProcessor → EventProcessor
recorded event p =
    let window = append_bounded window_limit p.event_window event in
    let session = get_or "" event.session_id in
    let path = get_or "" event.path in
    if is_empty session then record p { event_window = window } else record {
      event_window = window;
      session_activity = appended p.session_activity session event;
      file_access_patterns =
          if is_empty path
          then p.file_access_patterns
          else Dict.put p.file_access_patterns session
              (added path (get_or [] (Dict.get p.file_access_patterns session)));
    }

-- What a detector adds when its condition holds.
unfoldable pub flag : Bool → String → ℕ → String → Analysis → Analysis
flag met pattern score tag a =
    if met
    then record a {
      patterns = a.patterns ++ pattern ∷ [];
      risk_score = a.risk_score + score;
      tags = a.tags ++ tag ∷ [];
    }
    else a

abbrev pub path_of : AuditEvent → String
path_of event = get_or "" event.path

-- event.get('operation') in operations
unfoldable pub operation_in : List String → AuditEvent → Bool
operation_in operations event = elim event.operation [
  | none ↦ false
  | some operation ↦ contains operations operation
]

abbrev pub same_option : Option String → Option String → Bool
same_option none none = true
same_option (some a) (some b) = a == b
same_option _ _ = false

-- How many events of this session in the window have one of these operations.
unfoldable pub recent : List String → Option String → List AuditEvent → ℕ
recent operations session window =
    length (select (λ e. same_option e.session_id session && operation_in operations e) window)

-- any(part in path for part in parts)
unfoldable pub any_in : List String → String → Bool
any_in parts path = any (λ part. has_substring part path) parts

unfoldable pub detect_enumeration : List AuditEvent → AuditEvent → Analysis → Analysis
detect_enumeration window event a =
    let listings = "readdir" ∷ "getattr" ∷ [] in
    flag (any_in ("/etc/passwd" ∷ "/etc/shadow" ∷ "/etc/group" ∷ "/root/.ssh" ∷ []) (path_of event))
      "sensitive_file_access" 20 "enumeration"
      (flag (operation_in listings event && ltb 50 (recent listings event.session_id window))
        "rapid_enumeration" 15 "reconnaissance" a)

unfoldable pub detect_privilege_escalation : AuditEvent → Analysis → Analysis
detect_privilege_escalation event a =
    flag
      (operation_in ("create" ∷ "write" ∷ "mkdir" ∷ []) event
        && any (λ start. has_prefix start (path_of event))
            ("/bin" ∷ "/sbin" ∷ "/usr/bin" ∷ "/etc" ∷ []))
      "system_dir_modification" 30 "privilege_escalation"
      (flag (any_in ("/usr/bin/sudo" ∷ "/bin/su" ∷ "/usr/bin/passwd" ∷ []) (path_of event))
        "suid_binary_access" 25 "privilege_escalation" a)

unfoldable pub detect_data_exfiltration : List AuditEvent → AuditEvent → Analysis → Analysis
detect_data_exfiltration window event a =
    flag (any (λ end. has_suffix end (path_of event)) (".db" ∷ ".sql" ∷ ".mdb" ∷ ".sqlite" ∷ []))
      "database_access" 15 "exfiltration"
      (flag
        (operation_in ("read" ∷ []) event && ltb 100 (recent ("read" ∷ []) event.session_id window))
        "mass_file_read" 20 "exfiltration" a)

unfoldable pub detect_persistence : AuditEvent → Analysis → Analysis
detect_persistence event a =
    let writes = operation_in ("create" ∷ "write" ∷ []) event in
    flag
      (any_in (".bashrc" ∷ ".bash_profile" ∷ ".profile" ∷ "/etc/rc.local" ∷ []) (path_of event)
        && operation_in ("write" ∷ []) event)
      "rc_file_modification" 35 "persistence"
      (flag (has_substring ".ssh" (path_of event) && writes) "ssh_key_installation" 40 "persistence"
        (flag (has_substring "cron" (path_of event) && writes) "cron_modification" 35 "persistence"
          a))

unfoldable pub detect_lateral_movement : AuditEvent → Analysis → Analysis
detect_lateral_movement event a =
    flag (any_in ("/etc/hosts" ∷ "/etc/resolv.conf" ∷ "/etc/network" ∷ []) (path_of event))
      "network_config_access" 10 "lateral_movement" a

unfoldable pub calculate_risk_level : ℕ → RiskLevel
calculate_risk_level score =
    if leb 50 score
    then critical
    else if leb 30 score
    then high
    else if leb 15 score
    then medium
    else if ltb 0 score
    then low
    else info

abbrev pub no_analysis : AuditEvent → Analysis
no_analysis event = record {
  event_id = event.id;
  timestamp = event.timestamp;
  session_id = event.session_id;
  patterns = [];
  risk_score = 0;
  tags = [];
  risk_level = info;
}

unfoldable pub detect_all : List AuditEvent → AuditEvent → Analysis
detect_all window event = detect_lateral_movement event (
    detect_persistence event (
      detect_data_exfiltration window event
        (detect_privilege_escalation event (detect_enumeration window event (no_analysis event)))))

unfoldable pub process_event : AuditEvent → EventProcessor → Analysis × EventProcessor
process_event event p =
    let p' = recorded event p in
    let a = detect_all p'.event_window event in
    (record a { risk_level = calculate_risk_level a.risk_score }, p')

-- The loop of `clear_old_data`. `is_old` says of a timestamp whether its time is before the cutoff,
-- `none` if Python cannot read it (ValueError).
unfoldable pub clear_window : (String → Option Bool) → List AuditEvent → List AuditEvent
clear_window is_old [] = []
clear_window is_old (oldest ∷ rest) =
    let cleared = clear_window is_old rest in
    elim oldest.timestamp [
      | none ↦ cleared
      | some text ↦ if is_empty text || get_or true (is_old text) then cleared else oldest ∷ rest
    ]

unfoldable pub clear_old_data : (String → Option Bool) → EventProcessor → EventProcessor
clear_old_data is_old p = record p { event_window = clear_window is_old p.event_window }

pub record Summary : Type 0 where
  pub total_events : ℕ
  pub unique_files : ℕ
  pub operations : Dict String ℕ
  pub files_accessed : List String

unfoldable pub count_operations : List AuditEvent → Dict String ℕ → Dict String ℕ
count_operations [] counts = counts
count_operations (e ∷ rest) counts =
    let k = get_or "unknown" e.operation in
    count_operations rest (Dict.put counts k (get_or 0 (Dict.get counts k) + 1))

-- `files` is in the order of the first accesses, where Python's set has one of its own.
unfoldable pub get_session_summary : String → EventProcessor → Summary
get_session_summary session_id p =
    let events = get_or [] (Dict.get p.session_activity session_id) in
    let files = get_or [] (Dict.get p.file_access_patterns session_id) in
    record {
      total_events = length events;
      unique_files = length files;
      operations = count_operations events [];
      files_accessed = take 50 files;
    }
