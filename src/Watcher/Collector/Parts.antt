-- ===== src/Watcher/Collector/Parts.antt =====
-- evidence_collector.py: what `_process_event` changes in a session's evidence.
use apate.Prelude.{
  ℕ, String, Bool, true, false, not, ◌||◌, Option, none, some, List, [], ◌∷◌, ◌++◌, ltb,
  if◌then◌else◌, ◌==◌, nat_eq, string_eq, get_or, length, contains, is_empty, ℤ, pos, rsplit,
}
use apate.Dict
use apate.Dict.{Dict}
use apate.Skills.Threats.{ThreatSignature}
use apate.Watcher.Streamer.{Metadata, object, text, null}

pub data DetectionStatus : Type 0 where
  undetected detected : DetectionStatus

pub data ExitReason : Type 0 where
  active disconnect : ExitReason

-- An entry of `commands`; `details` are the keys "outcome", "exit_status",
-- "server_elapsed_seconds", "response_bytes" and "reason".
pub record CommandEntry : Type 0 where
  pub timestamp : Option String
  pub command : String
  pub command_id : Option String
  pub details : Dict String String
  pub completed_at : Option String
  pub techniques : List String
  pub risk_score : ℕ
  pub signatures : List String

-- The evidence but for `detection_confidence`, which is always None, and the skill assessment.
pub record SessionEvidence : Type 0 where
  pub session_id : String
  pub start_time : String
  pub end_time : Option String
  pub duration_seconds : ℤ
  pub detection_status : DetectionStatus
  pub exit_reason : ExitReason
  pub first_suspicious_command : Option String
  pub last_successful_interaction : Option String
  pub commands : List CommandEntry
  pub visited_files : List String
  pub traversal_graph : Dict String (List String)
  pub last_event_id : ℕ

-- A string that is there and not empty.
abbrev pub given : Option String → Bool
given none = false
given (some s) = not (is_empty s)

-- The dictionary at the end of `_get_evidence`.
unfoldable pub fresh_evidence : String → String → SessionEvidence
fresh_evidence session_id start_time = record {
  session_id = session_id;
  start_time = start_time;
  end_time = none;
  duration_seconds = pos 0;
  detection_status = undetected;
  exit_reason = active;
  first_suspicious_command = none;
  last_successful_interaction = none;
  commands = [];
  visited_files = [];
  traversal_graph = [];
  last_event_id = 0;
}

-- metadata.get(...) on the object; a text or NULL has no `get`.
unfoldable pub object_of : Metadata → Option (Dict String String)
object_of (object fields) = some fields
object_of (text t) = none
object_of null = none

-- What `command_analyzer.analyze` and `threat_library.match` find in a command.
pub record Detections : Type 0 where
  pub techniques : List String
  pub risk_score : ℕ
  pub signatures : List String

unfoldable pub signature_ids : List ThreatSignature → List String
signature_ids [] = []
signature_ids (m ∷ matches) = m.id ∷ signature_ids matches

-- A command without an entry of the same id yet.
unfoldable pub add_command :
    Detections → Option String → String → Option String → SessionEvidence → SessionEvidence
add_command found timestamp cmd command_id e =
    let entered = record e {
      commands =
          e.commands
          ++ (record {
            timestamp = timestamp;
            command = cmd;
            command_id = command_id;
            details = ("outcome", "unknown") ∷ [];
            completed_at = none;
            techniques = found.techniques;
            risk_score = found.risk_score;
            signatures = found.signatures;
          }
              ∷ []);
    } in
    if ltb 0 found.risk_score || ltb 0 (length found.signatures)
    then record entered {
      first_suspicious_command = elim e.first_suspicious_command [
        | none ↦ some cmd
        | some first ↦ some first
      ];
      detection_status = detected;
    }
    else entered

-- {key: metadata.get(key) for key in keys if key in metadata}, put into `details`
unfoldable pub copy_keys :
    List String → Dict String String → Dict String String → Dict String String
copy_keys [] fields details = details
copy_keys (key ∷ keys) fields details =
    copy_keys keys fields
      (elim (Dict.get fields key) [ none ↦ details | some v ↦ Dict.put details key v ])

abbrev pub result_keys : List String
result_keys =
    "outcome" ∷ "exit_status" ∷ "server_elapsed_seconds" ∷ "response_bytes" ∷ "reason" ∷ []

abbrev has_id : String → CommandEntry → Bool
has_id command_id c = elim c.command_id [ none ↦ false | some i ↦ i == command_id ]

-- The first entry with the id is updated, if there is one.
unfoldable pub complete_first :
    String → (CommandEntry → CommandEntry) → List CommandEntry → Bool × List CommandEntry
complete_first command_id update [] = (false, [])
complete_first command_id update (c ∷ cs) =
    let (found, rest) = complete_first command_id update cs in
    if has_id command_id c then (true, update c ∷ cs) else (found, c ∷ rest)

-- 'ssh_command_result'
unfoldable pub add_result : Option String → Dict String String → SessionEvidence → SessionEvidence
add_result timestamp fields e =
    let command_id = get_or "" (Dict.get fields "command_id") in
    let update : CommandEntry → CommandEntry = λ c. record c {
      details = copy_keys result_keys fields c.details;
      completed_at = timestamp;
    } in
    let (found, commands) = complete_first command_id update e.commands in
    if is_empty command_id || not found
    then e
    else (let updated = record e { commands = commands } in
        if get_or "" (Dict.get fields "outcome") == "emulated_success"
        then record updated { last_successful_interaction = timestamp }
        else updated)

-- xs.append(x), if it is not there
unfoldable pub noted : List String → String → List String
noted xs x = if contains xs x then xs else xs ++ (x ∷ [])

-- 'read', 'create', 'getattr', 'readdir'
unfoldable pub add_visit : String → SessionEvidence → SessionEvidence
add_visit path e =
    let visited = record e { visited_files = noted e.visited_files path } in
    elim (rsplit b'/' path) [
      | none ↦ visited
      | some (before, child) ↦
          let parent = if is_empty before then "/" else before in
          let children = get_or [] (Dict.get e.traversal_graph parent) in
          record visited {
            traversal_graph = Dict.put e.traversal_graph parent (noted children child);
          }
    ]
