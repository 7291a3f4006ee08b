-- ===== src/Watcher/Collector/Replay.antt =====
-- evidence_collector.py: what the evidence of a session should be after some rows of the log: each
-- of them taken in once, in order, by a collector that nothing ever fails for.
use apate.Prelude.{
  String, ◌≡◌, refl, ◌&&◌, Option, none, some, List, [], ◌∷◌, ◌++◌, if◌then◌else◌, ◌==◌, nat_eq,
  string_eq, get_or, arith, Option-cases, ℕ, ◌≤◌, ◌⊎◌, inl, inr, Bool-cases, subst, is_empty, ap,
  rsplit,
}
use apate.Dict
use apate.Dict.{Dict}
use apate.Watcher.Streamer.{LogRow}
use apate.Watcher.Streamer.Progress.{IsAbove, last_from}
use apate.Watcher.Collector.{
  Detections, object_of, add_visit, add_result, given, fresh_evidence, add_command, SessionEvidence,
  Tools, absorb, findings_in, on_command, on_result, on_visit, on_disconnect,
}

-- The evidence that a row starts from.
abbrev pub before_row : String → LogRow → Option SessionEvidence → SessionEvidence
before_row session row e = record (get_or (fresh_evidence session (get_or "" row.timestamp)) e) {
  last_event_id = row.id;
}

add_command-last_event_id :
    (found : Detections) (timestamp : Option String) (cmd : String) (command_id : Option String)
    (e : SessionEvidence)
    → (add_command found timestamp cmd command_id e).last_event_id ≡ e.last_event_id
unfolding add_command
add_command-last_event_id found timestamp cmd command_id e = ground arith

add_result-last_event_id :
    (timestamp : Option String) (fields : Dict String String) (e : SessionEvidence)
    → (add_result timestamp fields e).last_event_id ≡ e.last_event_id
unfolding add_result
add_result-last_event_id timestamp fields e = ground arith

add_visit-last_event_id :
    (path : String) (e : SessionEvidence) → (add_visit path e).last_event_id ≡ e.last_event_id
unfolding add_visit
add_visit-last_event_id path e = ground (arith, Option-cases (rsplit b'/' path))

abbrev pub KeepsRead : Option SessionEvidence → SessionEvidence → Type 0
KeepsRead none e = Unit
KeepsRead (some next) e = next.last_event_id ≡ e.last_event_id

-- What a session's evidence has read.
abbrev pub read_of : Option SessionEvidence → ℕ
read_of none = 0
read_of (some e) = e.last_event_id

module _ (tools : Tools) where
  unfoldable pub replay_row : String → Option SessionEvidence → LogRow → Option SessionEvidence
  replay_row session e row =
      if given row.session_id && (get_or "" row.session_id == session)
      then elim (absorb tools row (before_row session row e)) [ none ↦ e | some next ↦ some next ]
      else e

  unfoldable pub replay_from :
      String → Option SessionEvidence → List LogRow → Option SessionEvidence
  replay_from session e [] = e
  replay_from session e (row ∷ rows) = replay_from session (replay_row session e row) rows

  unfoldable pub replay : String → List LogRow → Option SessionEvidence
  replay session rows = replay_from session none rows

  pub replay-append :
      (session : String) (e : Option SessionEvidence) (rows more : List LogRow)
      → replay_from session e (rows ++ more) ≡ replay_from session (replay_from session e rows) more
  unfolding replay_from
  replay-append session e [] more = refl
  replay-append session e (first ∷ rows) more =
      replay-append session (replay_row session e first) rows more

  on_command-KeepsRead : (row : LogRow) (e : SessionEvidence) → KeepsRead (on_command tools row e) e
  unfolding on_command
  on_command-KeepsRead row e = elim (Option-cases (object_of row.metadata)) [
    | inl missing ↦ rw (KeepsRead, missing) tt
    | inr (fields, there) ↦
        let cmd = get_or "" (Dict.get fields "command") in
        rw (KeepsRead, there)
          (elim (Bool-cases (is_empty cmd)) [
            | inl no_command ↦ rw (KeepsRead, no_command) refl
            | inr command ↦
                rw (KeepsRead, command)
                  (add_command-last_event_id (findings_in tools cmd) row.timestamp cmd
                    (Dict.get fields "command_id") e)
          ])
  ]

  on_result-KeepsRead : (row : LogRow) (e : SessionEvidence) → KeepsRead (on_result tools row e) e
  unfolding on_result
  on_result-KeepsRead row e = elim (Option-cases (object_of row.metadata)) [
    | inl missing ↦ rw (KeepsRead, missing) tt
    | inr (fields, there) ↦ rw (KeepsRead, there) (add_result-last_event_id row.timestamp fields e)
  ]

  on_visit-KeepsRead : (row : LogRow) (e : SessionEvidence) → KeepsRead (on_visit tools row e) e
  unfolding on_visit
  on_visit-KeepsRead row e = ground (arith, add_visit-last_event_id (get_or "" row.path) e)

  on_disconnect-KeepsRead :
      (row : LogRow) (e : SessionEvidence) → KeepsRead (on_disconnect tools row e) e
  unfolding on_disconnect
  on_disconnect-KeepsRead row e = ground arith

  pub absorb-KeepsRead : (row : LogRow) (e : SessionEvidence) → KeepsRead (absorb tools row e) e
  unfolding absorb
  absorb-KeepsRead row e = ground (
    on_command-KeepsRead row e,
    on_result-KeepsRead row e,
    on_visit-KeepsRead row e,
    on_disconnect-KeepsRead row e,
    arith,
  )

  pub replay_row-read :
      (session : String) (e : Option SessionEvidence) (row : LogRow)
      → (replay_row session e row ≡ e) ⊎ (read_of (replay_row session e row) ≡ row.id)
  unfolding replay_row
  replay_row-read session e row =
      elim (Bool-cases (given row.session_id && (get_or "" row.session_id == session))) [
        | inr other ↦ inl (rw other refl)
        | inl own ↦ elim (Option-cases (absorb tools row (before_row session row e))) [
          | inl raised ↦ inl (rw (own, raised) refl)
          | inr (next, done) ↦ inr (
              rw (own, done)
                (subst (λ o. KeepsRead o (before_row session row e)) done
                  (absorb-KeepsRead row (before_row session row e))))
        ]
      ]

  -- The evidence has read no further than the rows go.
  pub replay-read :
      (session : String) (n : ℕ) (e : Option SessionEvidence) (rows : List LogRow)
      → read_of e ≤ n
      → IsAbove n rows
      → read_of (replay_from session e rows) ≤ last_from n rows
  unfolding replay_from
  replay-read session n e [] h above = h
  replay-read session n e (row ∷ rows) h above =
      replay-read session row.id (replay_row session e row) rows
        (elim (replay_row-read session e row) [
          | inl same ↦ rw same (omega (arith, above.0))
          | inr read ↦ omega arith
        ])
        above.1

  -- Later rows take no reading back.
  pub replay-read_le :
      (session : String) (n : ℕ) (e : Option SessionEvidence) (rows : List LogRow)
      → read_of e ≤ n
      → IsAbove n rows
      → read_of e ≤ read_of (replay_from session e rows)
  unfolding replay_from
  replay-read_le session n e [] h above = omega arith
  replay-read_le session n e (row ∷ rows) h above = elim (replay_row-read session e row) [
    | inl same ↦ rw same (replay-read_le session row.id e rows (omega (arith, above.0)) above.1)
    | inr read ↦
        let rest =
          replay-read_le session row.id (replay_row session e row) rows (omega arith) above.1 in
        omega (arith, rest, read, above.0)
  ]

  -- Rows of which none was read changed nothing.
  pub replay_unread :
      (session : String) (n : ℕ) (e : Option SessionEvidence) (rows : List LogRow)
      → read_of e ≤ n
      → IsAbove n rows
      → read_of (replay_from session e rows) ≤ n
      → replay_from session e rows ≡ e
  unfolding replay_from
  replay_unread session n e [] h above unread = refl
  replay_unread session n e (row ∷ rows) h above unread = elim (replay_row-read session e row) [
    | inl same ↦
        let rest : read_of (replay_from session e rows) ≤ row.id =
          omega (arith, ap (λ o. read_of (replay_from session o rows)) same, unread, above.0) in
        rw same (replay_unread session row.id e rows (omega (arith, above.0)) above.1 rest)
    | inr read ↦
        let more =
          replay-read_le session row.id (replay_row session e row) rows (omega arith) above.1 in
        absurd (omega (arith, more, read, above.0, unread))
  ]
