-- ===== src/Watcher/Collector/Ahead.antt =====
-- evidence_collector.py: a row that is handed over once more, after it was taken in.
use apate.Watcher.Collector.Once.{kept, process_loaded_again, progress}
use apate.Prelude.{
  subst, ◌<◌, String, ◌≡◌, refl, sym, ap, ◌∙◌, inl, inr, true, none, List, ◌∷◌, ◌++◌, arith, nat_eq,
  string_eq, Option-cases, get_or, false, leb, Bool-cases, drop,
}
use apate.Watcher.Streamer.{LogRow}
use apate.Watcher.Streamer.Progress.{IsAbove, last_from-lt, IsAbove-front, IsAbove-behind}
use apate.Watcher.Collector.{
  given, Tools, absorb, Payload, Fate, Collector, fate_of, get_evidence, process_loaded,
  process_event,
}
use apate.Watcher.Collector.Replay.{
  before_row, KeepsRead, read_of, replay_row, replay_from, replay, replay-append, absorb-KeepsRead,
  replay_row-read, replay-read, replay-read_le, replay_unread,
}
use apate.Watcher.Collector.Exactly.{replay_row-own, get_or-read, Matches, get_evidence-replay}

module _ (tools : Tools) where
  replay_through :
      (session : String) (rows ahead : List LogRow) (row : LogRow)
      → replay tools session (rows ++ (row ∷ ahead))
        ≡ replay_from tools session (replay_row tools session (replay tools session rows) row) ahead
  unfolding replay replay_from
  replay_through session rows ahead row = replay-append tools session none rows (row ∷ ahead)

  pub before_unread :
      (session : String) (rows ahead : List LogRow) (row : LogRow)
      → IsAbove 0 (rows ++ (row ∷ ahead))
      → read_of (replay tools session rows) < row.id
  unfolding replay
  before_unread session rows ahead row above = omega (
    arith,
    replay-read tools session 0 none rows (omega arith) (IsAbove-front 0 rows (row ∷ ahead) above),
    last_from-lt 0 rows ahead row above,
  )

  -- Where the session has read neither the row nor one behind it, the row raises.
  raises_again :
      (rows ahead : List LogRow) (row : LogRow)
      → IsAbove 0 (rows ++ (row ∷ ahead))
      → given row.session_id ≡ true
      → let session = get_or "" row.session_id in
        read_of (replay tools session (rows ++ (row ∷ ahead))) < row.id
        → absorb tools row (before_row session row (replay tools session (rows ++ (row ∷ ahead))))
          ≡ none
  raises_again rows ahead row above own unread =
      let session = get_or "" row.session_id in
      let before = replay tools session rows in
      let after = replay_row tools session before row in
      let through = replay_through session rows ahead row in
      let behind = IsAbove-behind 0 rows ahead row above in
      let less = before_unread session rows ahead row above in
      elim (replay_row-read tools session before row) [
        | inr read ↦ absurd (
            omega (
              arith,
              ap read_of through,
              unread,
              replay-read_le tools session row.id after ahead (omega arith) behind,
              read,
            ))
        | inl same ↦
            let ends : replay tools session (rows ++ (row ∷ ahead)) ≡ before =
              through
              ∙ ap (λ o. replay_from tools session o ahead) same
              ∙ replay_unread tools session row.id before ahead (omega (arith, less)) behind (
                  omega (
                    arith,
                    unread,
                    ap read_of (through ∙ ap (λ o. replay_from tools session o ahead) same),
                  )) in
            elim (Option-cases (absorb tools row (before_row session row before))) [
              | inl raised ↦ ap (λ o. absorb tools row (before_row session row o)) ends ∙ raised
              | inr (next, done) ↦
                  let read : next.last_event_id ≡ row.id =
                    subst (λ o. KeepsRead o (before_row session row before)) done
                      (absorb-KeepsRead tools row (before_row session row before)) in
                  absurd (
                    omega (
                      arith,
                      less,
                      read,
                      ap read_of
                          (sym same ∙ replay_row-own tools session before row next own refl done),
                    ))
            ]
      ]

  progress-raised :
      (fate : Fate) (session : String) (row : LogRow) (p : Payload) (c : Collector)
      → absorb tools row (record p.evidence { last_event_id = row.id }) ≡ none
      → p.evidence.last_event_id < row.id
      → progress (process_loaded tools fate session row p c).1 ≡ progress c
  unfolding process_loaded
  progress-raised fate session row p c raised unread =
      let new : leb row.id p.evidence.last_event_id ≡ false = ground arith in rw (new, raised) refl

  loaded-ahead :
      (fate : Fate) (rows ahead : List LogRow) (row : LogRow) (c : Collector)
      → IsAbove 0 (rows ++ (row ∷ ahead))
      → given row.session_id ≡ true
      → given row.timestamp ≡ true
      → Matches tools (rows ++ (row ∷ ahead)) c
      → let session = get_or "" row.session_id in
        progress (process_loaded tools fate session row (get_evidence tools fate session row c) c).1
        ≡ progress c
  loaded-ahead fate rows ahead row c above own timed h =
      let session = get_or "" row.session_id in
      let p = get_evidence tools fate session row c in
      let log = rows ++ (row ∷ ahead) in
      let start = get_evidence-replay tools fate session row log c timed h in
      let read : p.evidence.last_event_id ≡ read_of (replay tools session log) =
        rw (start, get_or-read session (get_or "" row.timestamp) (replay tools session log)) refl in
      elim (Bool-cases (leb row.id p.evidence.last_event_id)) [
        | inl old ↦ process_loaded_again tools fate session row p c (ground arith)
        | inr new ↦
            let unread : p.evidence.last_event_id < row.id = ground arith in
            progress-raised fate session row p c
              (ap (λ e. absorb tools row (record e { last_event_id = row.id })) start
                ∙ raises_again rows ahead row above own (omega (arith, read, unread)))
              unread
      ]

  -- A row that is handed over again leaves the evidence as it is.
  pub process_event-ahead :
      (rows ahead : List LogRow) (row : LogRow) (c : Collector)
      → IsAbove 0 (rows ++ (row ∷ ahead))
      → given row.timestamp ≡ true
      → Matches tools (rows ++ (row ∷ ahead)) c
      → Matches tools (rows ++ (row ∷ ahead)) (process_event tools row c).1
  unfolding process_event
  process_event-ahead rows ahead row c above timed h =
      let next = record c { fates = drop 1 c.fates } in
      elim (Bool-cases (given row.session_id)) [
        | inr no_session ↦ simp no_session h
        | inl own ↦ elim (Bool-cases (fate_of c).loads) [
          | inr broken ↦ simp (own, broken) h
          | inl works ↦
              simp (own, works)
                (λ o.
                  ap (λ rows'. kept rows' o)
                    (loaded-ahead (fate_of c) rows ahead row next above own timed h)
                  ∙ h o)
        ]
      ]
