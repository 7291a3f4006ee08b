-- ===== src/Watcher/Collector.antt =====
-- src/chronos/watcher/evidence_collector.py: the evidence of each session, built from the rows that
-- the streamer hands over. `elapsed` stands for the difference of two isoformat() texts in seconds,
-- `none` where datetime raises, and `instant` for how PostgreSQL reads a start time. The counters of
-- Prometheus are left out.
mod Parts
pub mod Replay
pub mod Once
pub mod Exactly
pub mod Ahead
pub mod Restarts
pub mod Tests
unfoldable pub use Parts.*
use apate.Prelude.{
  ℕ, ◌*◌, String, Bool, true, false, not, Option, none, some, List, [], ◌∷◌, map, leb,
  if◌then◌else◌, ◌==◌, nat_eq, string_eq, get_or, drop, contains, is_empty, ℤ,
}
use apate.Dict
use apate.Dict.{Dict}
use apate.Core.Evidence.{
  Evidence, Tables, flush_evidence, load_evidence_progress, save_evidence_progress,
}
use apate.Skills.Commands.{analyze, batch_analyze}
use apate.Skills.Threats.{ThreatLibrary, match_text}
use apate.Skills.Detector.{Assessment, SkillDetector, analyze_session}
use apate.Watcher.Streamer.{Metadata, object, text, null, LogRow}

-- What is saved: the evidence, and its key 'skill_assessment'.
pub record Payload : Type 0 where
  pub evidence : SessionEvidence
  pub skill_assessment : Option Assessment

-- How the databases behave during one call: whether the load, the save, Redis' set, the flush (with
-- the layer's own connection) and Redis' delete work, and the clock's time.
pub record Fate : Type 0 where
  pub loads : Bool
  pub saves : Bool
  pub caches : Bool
  pub connected : Bool
  pub flushes : Bool
  pub uncaches : Bool
  pub now : String

-- The tables in PostgreSQL, the keys chronos:evidence:<session> in Redis, the detector's sessions,
-- and the fates of the calls to come.
pub record Collector : Type 0 where
  pub tables : Tables Payload
  pub cache : Dict String Payload
  pub sessions : SkillDetector
  pub fates : List Fate

-- After the last fate given all works.
unfoldable pub fate_of : Collector → Fate
fate_of c = elim c.fates [
  | [] ↦ record {
    loads = true;
    saves = true;
    caches = true;
    connected = true;
    flushes = true;
    uncaches = true;
    now = "1970-01-01T00:00:00";
  }
  | fate ∷ fates ↦ fate
]

-- The analyzers that the collector has made for itself.
pub record Tools : Type 0 where
  pub search : String → String → Bool
  pub lower : String → String
  pub signatures : ThreatLibrary
  pub elapsed : String → String → Option ℤ
  pub instant : String → ℕ

unfoldable pub findings_in : Tools → String → Detections
findings_in tools cmd =
    let analysis = analyze tools.search cmd in
    record {
      techniques = analysis.techniques;
      risk_score = analysis.risk_score;
      signatures = signature_ids (match_text tools.lower cmd tools.signatures);
    }

abbrev pub is_disconnect : LogRow → Bool
is_disconnect row = get_or "" row.operation == "ssh_disconnect"

module _ (tools : Tools) where
  -- The branches of `_process_event` by operation; `none` is an exception.
  unfoldable pub on_command : LogRow → SessionEvidence → Option SessionEvidence
  on_command row e = elim (object_of row.metadata) [
    | none ↦ none
    | some fields ↦
        let cmd = get_or "" (Dict.get fields "command") in
        if is_empty cmd
        then some e
        else some
            (add_command (findings_in tools cmd) row.timestamp cmd (Dict.get fields "command_id") e)
  ]

  unfoldable pub on_result : LogRow → SessionEvidence → Option SessionEvidence
  on_result row e = elim (object_of row.metadata) [
    | none ↦ none
    | some fields ↦ some (add_result row.timestamp fields e)
  ]

  unfoldable pub on_visit : LogRow → SessionEvidence → Option SessionEvidence
  on_visit row e = if given row.path then some (add_visit (get_or "" row.path) e) else some e

  unfoldable pub on_disconnect : LogRow → SessionEvidence → Option SessionEvidence
  on_disconnect row e = elim row.timestamp [
    | none ↦ none
    | some end_time ↦ elim (tools.elapsed e.start_time end_time) [
      | none ↦ none
      | some seconds ↦ some record e {
        end_time = some end_time;
        duration_seconds = seconds;
        exit_reason = disconnect;
      }
    ]
  ]

  -- The change of the evidence by its event.
  unfoldable pub absorb : LogRow → SessionEvidence → Option SessionEvidence
  absorb row e =
      let operation = get_or "" row.operation in
      if operation == "ssh_command"
      then on_command row e
      else if operation == "ssh_command_result"
      then on_result row e
      else if contains ("read" ∷ "create" ∷ "getattr" ∷ "readdir" ∷ []) operation
      then on_visit row e
      else if operation == "ssh_disconnect"
      then on_disconnect row e
      else some e

  -- `_save_evidence`: whether it returns.
  unfoldable pub save_evidence : Fate → String → Payload → Collector → Bool × Collector
  save_evidence fate session_id payload c =
      if not fate.saves
      then (false, c)
      else (let saved = record c {
        tables = save_evidence_progress session_id payload.evidence.last_event_id payload c.tables;
      } in
          if not fate.caches
          then (false, saved)
          else (true, record saved { cache = Dict.put c.cache session_id payload }))

  -- `_flush`: a flush that fails raises RuntimeError.
  unfoldable pub flush : Fate → String → Payload → Collector → Bool × Collector
  flush fate session_id payload c =
      let (flushed, tables) =
        flush_evidence fate.connected fate.flushes session_id
          (record {
            start_time = tools.instant payload.evidence.start_time;
            last_event_id = payload.evidence.last_event_id;
            fields = payload;
          })
          c.tables in
      if not flushed
      then (false, c)
      else (let kept = record c { tables = tables } in
          if not fate.uncaches
          then (false, kept)
          else (true, record kept { cache = Dict.remove c.cache session_id }))

  -- The skill assessment at the end, if there is a command.
  unfoldable pub assessed : String → Payload → Collector → Payload × Collector
  assessed session_id payload c = elim payload.evidence.commands [
    | [] ↦ (payload, c)
    | _ ∷ _ ↦
        let analyses =
          batch_analyze tools.search
            (map (λ (entry : CommandEntry). entry.command) payload.evidence.commands) in
        let (assessment, sessions) = analyze_session tools.lower session_id analyses c.sessions in
        (record payload { skill_assessment = some assessment }, record c { sessions = sessions })
  ]

  -- What is kept of the session, or its fresh evidence.
  unfoldable pub get_evidence : Fate → String → LogRow → Collector → Payload
  get_evidence fate session_id row c =
      get_or
        (record {
          evidence =
              fresh_evidence session_id
                (if given row.timestamp then get_or "" row.timestamp else fate.now);
          skill_assessment = none;
        })
        (load_evidence_progress session_id c.tables)

  -- The evidence that the row is in is saved; at the end it is assessed before, and flushed after.
  unfoldable pub store : Fate → String → LogRow → Payload → Collector → Bool × Collector
  store fate session_id row payload c =
      if is_disconnect row
      then (let (payload', c') = assessed session_id payload c in
          let (saved, kept) = save_evidence fate session_id payload' c' in
          if saved then flush fate session_id payload' kept else (false, kept))
      else save_evidence fate session_id payload c

  -- A row of this session whose evidence could be read.
  unfoldable pub process_loaded : Fate → String → LogRow → Payload → Collector → Bool × Collector
  process_loaded fate session_id row payload c =
      if leb row.id payload.evidence.last_event_id
      then (if is_disconnect row then flush fate session_id payload c else (true, c))
      else elim (absorb row (record payload.evidence { last_event_id = row.id })) [
        | none ↦ (false, c)
        | some evidence ↦ store fate session_id row (record payload { evidence = evidence }) c
      ]

  -- `_process_event`: whether it returns, and what it leaves.
  unfoldable pub process_event : LogRow → Collector → Bool × Collector
  process_event row c =
      let fate = fate_of c in
      let next = record c { fates = drop 1 c.fates } in
      if not (given row.session_id)
      then (true, next)
      else if not fate.loads
      then (false, next)
      else (let session_id = get_or "" row.session_id in
          process_loaded fate session_id row (get_evidence fate session_id row next) next)
