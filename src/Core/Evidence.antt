-- ===== src/Core/Evidence.antt =====
-- src/chronos/core/persistence.py: a session's evidence in PostgreSQL, where a later write counts
-- only if it has read further in the audit log. `Fields` are the columns that an update replaces
-- (and the payload of the progress), start times are numbers.
pub mod Fenced
pub mod Tests
use apate.Prelude.{
  ℕ, String, Bool, true, false, not, Option, none, some, ltb, if◌then◌else◌, nat_eq, string_eq,
}
use apate.Dict
use apate.Dict.{Dict}

pub record Evidence (Fields : Type 0) : Type 0 where
  pub start_time : ℕ
  pub last_event_id : ℕ
  pub fields : Fields

-- The tables session_evidence and evidence_progress, by session.
pub record Tables (Fields : Type 0) : Type 0 where
  pub session_evidence : Dict String (Evidence Fields)
  pub evidence_progress : Dict String (ℕ × Fields)

module _ {Fields : Type 0} where
  -- INSERT ... ON CONFLICT (session_id) DO UPDATE SET ... WHERE the row's last_event_id is smaller:
  -- every column but the start time.
  unfoldable pub upsert :
      String → Evidence Fields → Dict String (Evidence Fields) → Dict String (Evidence Fields)
  upsert session new rows = elim (Dict.get rows session) [
    | none ↦ Dict.put rows session new
    | some old ↦
        if ltb old.last_event_id new.last_event_id
        then Dict.put rows session (record new { start_time = old.start_time })
        else rows
  ]

  -- `flush_evidence`: without the layer's own connection nothing is tried, and any exception, which
  -- `works` excludes, rolls back.
  unfoldable pub flush_evidence :
      Bool → Bool → String → Evidence Fields → Tables Fields → Bool × Tables Fields
  flush_evidence connected works session new t =
      if not connected
      then (false, t)
      else if not works
      then (false, t)
      else (true, record t { session_evidence = upsert session new t.session_evidence })

  unfoldable pub load_evidence_progress : String → Tables Fields → Option Fields
  load_evidence_progress session t = elim (Dict.get t.evidence_progress session) [
    | none ↦ none
    | some row ↦ some row.1
  ]

  unfoldable pub save_evidence_progress : String → ℕ → Fields → Tables Fields → Tables Fields
  save_evidence_progress session last payload t = elim (Dict.get t.evidence_progress session) [
    | none ↦ record t { evidence_progress = Dict.put t.evidence_progress session (last, payload) }
    | some old ↦
        if ltb old.0 last
        then record t { evidence_progress = Dict.put t.evidence_progress session (last, payload) }
        else t
  ]
