-- ===== src/Watcher/Collector/Once.antt =====
-- evidence_collector.py with log_streamer.py: each row of the log is taken in exactly once, though
-- a row may be handed over again after an exception.
use apate.Prelude.{
  ℕ, ◌<◌, String, ◌≡◌, ◌⊎◌, false, Option, none, some, arith, nat_eq, string_eq, subst, refl, ◌∙◌,
  inl, inr, Bool, leb, Bool-cases, Option-cases, sym, ap, true, if◌then◌else◌, ◌≤◌,
}
use apate.Dict.{Dict, get-put}
use apate.Dict
use apate.Core.Evidence.{flush_evidence, save_evidence_progress}
use apate.Watcher.Collector.{
  LogRow, SessionEvidence, Payload, Fate, Collector, Tools, save_evidence, flush, absorb, assessed,
  is_disconnect, process_loaded, store,
}
use apate.Watcher.Collector.Replay.{KeepsRead, absorb-KeepsRead}

-- The saved evidence of a session, with the column last_event_id.
abbrev pub Progress : Type 0
Progress = Dict String (ℕ × Payload)

abbrev pub kept_in : Option (ℕ × Payload) → Option (ℕ × SessionEvidence)
kept_in none = none
kept_in (some (last, p)) = some (last, p.evidence)

abbrev pub kept : Progress → String → Option (ℕ × SessionEvidence)
kept rows session = kept_in (Dict.get rows session)

abbrev pub stamped : Option SessionEvidence → Option (ℕ × SessionEvidence)
stamped none = none
stamped (some e) = some (e.last_event_id, e)

abbrev pub progress : Collector → Progress
progress c = c.tables.evidence_progress

abbrev pub column : Option (ℕ × Payload) → ℕ
column none = 0
column (some (last, p)) = last

module _ (tools : Tools) where
  progress-flush :
      (fate : Fate) (session_id : String) (p : Payload) (c : Collector)
      → progress (flush tools fate session_id p c).1 ≡ progress c
  unfolding flush flush_evidence
  progress-flush fate session_id p c = ground arith

  -- A save that is newer than what is there replaces it, or raises and leaves it.
  progress-save_evidence :
      (fate : Fate) (session_id : String) (p : Payload) (c : Collector)
      → column (Dict.get (progress c) session_id) < p.evidence.last_event_id
      → let saved = save_evidence tools fate session_id p c in
        ((progress saved.1 ≡ progress c) × (saved.0 ≡ false))
        ⊎ (progress saved.1 ≡ Dict.put (progress c) session_id (p.evidence.last_event_id, p))
  unfolding save_evidence save_evidence_progress
  progress-save_evidence fate session_id p c newer =
      ground (arith, Option-cases (Dict.get (progress c) session_id))

  assessed_keeps :
      (session_id : String) (p : Payload) (c : Collector)
      → let a = assessed tools session_id p c in
        (a.0.evidence ≡ p.evidence) × (progress a.1 ≡ progress c)
  unfolding assessed
  assessed_keeps session_id p c = ground arith

  -- The row is not taken in, and is handed over again; or it is, once.
  abbrev pub TakenIn : String → LogRow → Payload → Collector → Bool × Collector → Type 0
  TakenIn session_id row p c (returned, c') =
      ((progress c' ≡ progress c) × (returned ≡ false))
      ⊎ ((p' : Payload) × (absorb tools row (record p.evidence { last_event_id = row.id })
            ≡ some p'.evidence)
          × (progress c' ≡ Dict.put (progress c) session_id (row.id, p')))

  save-TakenIn :
      (fate : Fate) (session_id : String) (row : LogRow) (p p' : Payload) (c c' : Collector)
      → progress c' ≡ progress c
      → column (Dict.get (progress c) session_id) < row.id
      → absorb tools row (record p.evidence { last_event_id = row.id }) ≡ some p'.evidence
      → TakenIn session_id row p c (save_evidence tools fate session_id p' c')
  save-TakenIn fate session_id row p p' c c' same newer done =
      let read : p'.evidence.last_event_id ≡ row.id =
        subst (λ o. KeepsRead o (record p.evidence { last_event_id = row.id })) done
          (absorb-KeepsRead tools row (record p.evidence { last_event_id = row.id })) in
      elim (progress-save_evidence fate session_id p' c' (rw (same, read) newer)) [
        | inl (left, raised) ↦ inl (left ∙ same, raised)
        | inr saved ↦ inr (p', done, saved ∙ rw (same, read) refl)
      ]

  flush-TakenIn :
      (fate : Fate) (session_id : String) (row : LogRow) (p p' : Payload) (c : Collector)
      (saved : Bool × Collector)
      → TakenIn session_id row p c saved
      → TakenIn session_id row p c
          (if saved.0 then flush tools fate session_id p' saved.1 else (false, saved.1))
  flush-TakenIn fate session_id row p p' c (false, c') h = h
  flush-TakenIn fate session_id row p p' c (true, c') (inl (left, raised)) = absurd (ground arith)
  flush-TakenIn fate session_id row p p' c (true, c') (inr (next, done, saved)) =
      inr (next, done, progress-flush fate session_id p' c' ∙ saved)

  store-TakenIn :
      (fate : Fate) (session_id : String) (row : LogRow) (p p' : Payload) (c : Collector)
      → column (Dict.get (progress c) session_id) < row.id
      → absorb tools row (record p.evidence { last_event_id = row.id }) ≡ some p'.evidence
      → TakenIn session_id row p c (store tools fate session_id row p' c)
  unfolding store
  store-TakenIn fate session_id row p p' c newer done = elim (Bool-cases (is_disconnect row)) [
    | inr more ↦ rw more (save-TakenIn fate session_id row p p' c c refl newer done)
    | inl ends ↦
        let a = assessed tools session_id p' c in
        let (same_evidence, same) = assessed_keeps session_id p' c in
        rw ends (
          flush-TakenIn fate session_id row p a.0 c (save_evidence tools fate session_id a.0 a.1) (
            save-TakenIn fate session_id row p a.0 c a.1 same newer
              (done ∙ ap some (sym same_evidence))))
  ]

  pub process_loaded-TakenIn :
      (fate : Fate) (session_id : String) (row : LogRow) (p : Payload) (c : Collector)
      → p.evidence.last_event_id < row.id
      → column (Dict.get (progress c) session_id) < row.id
      → TakenIn session_id row p c (process_loaded tools fate session_id row p c)
  unfolding process_loaded
  process_loaded-TakenIn fate session_id row p c new newer =
      let unread : leb row.id p.evidence.last_event_id ≡ false = ground arith in
      elim (Option-cases (absorb tools row (record p.evidence { last_event_id = row.id }))) [
        | inl raised ↦ rw (unread, raised) (inl (refl, refl))
        | inr (next, done) ↦
            let p' = record p { evidence = next } in
            let goes : process_loaded tools fate session_id row p c
                ≡ store tools fate session_id row p' c =
              rw (unread, done) refl in
            subst (TakenIn session_id row p c) (sym goes)
              (store-TakenIn fate session_id row p p' c newer done)
      ]

  -- A row that was taken in before changes nothing that is saved.
  pub process_loaded_again :
      (fate : Fate) (session_id : String) (row : LogRow) (p : Payload) (c : Collector)
      → row.id ≤ p.evidence.last_event_id
      → progress (process_loaded tools fate session_id row p c).1 ≡ progress c
  unfolding process_loaded
  process_loaded_again fate session_id row p c old =
      ground (arith, progress-flush fate session_id p c)
