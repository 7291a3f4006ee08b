-- ===== src/Watcher/Collector/Exactly.antt =====
-- evidence_collector.py with log_streamer.py: after any polls the saved evidence is that of a
-- replay of the log.
use apate.Prelude.{
  String, ◌≡◌, true, some, List, [], ◌∷◌, ◌++◌, arith, nat_eq, string_eq, Option-cases, get_or, All,
  subst, refl, sym, ap, ◌∙◌, inl, inr, false, Option, none, if◌then◌else◌, ◌==◌, Bool-cases, ◌<◌,
  ◌⊎◌, Bool, drop,
}
use apate.Dict.{Dict, get-put}
use apate.Dict
use apate.Core.Evidence.{load_evidence_progress}
use apate.Watcher.Streamer.{LogRow, start}
use apate.Watcher.Collector.{
  SessionEvidence, fresh_evidence, given, Payload, Fate, Collector, Tools, absorb, get_evidence,
  process_loaded, fate_of, process_event,
}
use apate.Watcher.Collector.Replay.{
  before_row, read_of, replay, KeepsRead, replay_row, replay_from, replay-append, absorb-KeepsRead,
}
use apate.Watcher.Collector.Once.{kept, stamped, progress, column, kept_in, process_loaded-TakenIn}

-- Every row has a time.
abbrev pub HasTimes : List LogRow → Type 0
HasTimes = All (λ row. given row.timestamp ≡ true)

pub get_or-read :
    (session start : String) (e : Option SessionEvidence)
    → (get_or (fresh_evidence session start) e).last_event_id ≡ read_of e
unfolding fresh_evidence
get_or-read session start none = refl
get_or-read session start (some e) = refl

module _ (tools : Tools) where
  -- What is saved for each session is what a replay of these rows gives.
  abbrev pub Matches : List LogRow → Collector → Type 0
  Matches rows c =
      (session : String) → kept (progress c) session ≡ stamped (replay tools session rows)

  column-replay :
      (session : String) (rows : List LogRow) (c : Collector)
      → Matches rows c
      → column (Dict.get (progress c) session) ≡ read_of (replay tools session rows)
  column-replay session rows c h = ground (
    arith,
    h session,
    Option-cases (Dict.get (progress c) session),
    Option-cases (replay tools session rows),
  )

  pub get_evidence-replay :
      (fate : Fate) (session : String) (row : LogRow) (rows : List LogRow) (c : Collector)
      → given row.timestamp ≡ true
      → Matches rows c
      → (get_evidence tools fate session row c).evidence
        ≡ get_or (fresh_evidence session (get_or "" row.timestamp)) (replay tools session rows)
  unfolding get_evidence load_evidence_progress
  get_evidence-replay fate session row rows c timed h = ground (
    arith,
    h session,
    Option-cases (Dict.get (progress c) session),
    Option-cases (replay tools session rows),
  )

  pub replay_row-own :
      (session : String) (e : Option SessionEvidence) (row : LogRow) (next : SessionEvidence)
      → given row.session_id ≡ true
      → get_or "" row.session_id ≡ session
      → absorb tools row (before_row session row e) ≡ some next
      → replay_row tools session e row ≡ some next
  unfolding replay_row
  replay_row-own session e row next own same done =
      rw (own, (string_eq.beq_iff (get_or "" row.session_id) session).1 same, done) refl

  replay_row-other :
      (session : String) (e : Option SessionEvidence) (row : LogRow)
      → (get_or "" row.session_id == session) ≡ false
      → replay_row tools session e row ≡ e
  unfolding replay_row
  replay_row-other session e row other = ground (arith, other)

  -- A row of the session that was taken in.
  taken-Matches :
      (session : String) (row : LogRow) (rows : List LogRow) (c c' : Collector) (p' : Payload)
      → given row.session_id ≡ true
      → get_or "" row.session_id ≡ session
      → Matches rows c
      → absorb tools row (before_row session row (replay tools session rows)) ≡ some p'.evidence
      → progress c' ≡ Dict.put (progress c) session (row.id, p')
      → Matches (rows ++ (row ∷ [])) c'
  unfolding replay replay_from
  taken-Matches session row rows c c' p' own same h done saved other =
      let read : p'.evidence.last_event_id ≡ row.id =
        subst (λ o. KeepsRead o (before_row session row (replay tools session rows))) done
          (absorb-KeepsRead tools row (before_row session row (replay tools session rows))) in
      let now : kept (progress c') other
          ≡ kept_in (if session == other then some (row.id, p') else Dict.get (progress c) other) =
        ap (λ rows'. kept rows' other) saved
        ∙ ap kept_in (get-put (progress c) session other (row.id, p')) in
      now ∙ (elim (Bool-cases (session == other)) [
        | inl is_own ↦
            let the_same : session ≡ other = (string_eq.beq_iff session other).0 is_own in
            rw is_own (
              subst
                (λ o. some (row.id, p'.evidence) ≡ stamped (replay tools o (rows ++ (row ∷ []))))
                the_same
                (ap (λ n. some (n, p'.evidence)) (sym read)
                  ∙ ap stamped (
                      sym (
                        replay-append tools session none rows (row ∷ [])
                        ∙ replay_row-own session (replay_from tools session none rows) row
                            p'.evidence own same done))))
        | inr differs ↦ rw differs (
            h other
            ∙ ap stamped (
                sym (
                  replay-append tools other none rows (row ∷ [])
                  ∙ replay_row-other other (replay_from tools other none rows) row
                      (rw same differs))))
      ])

  -- Before the row, or after it.
  abbrev pub Around : List LogRow → LogRow → Collector → Type 0
  Around rows row c = Matches rows c ⊎ Matches (rows ++ (row ∷ [])) c

  -- The row was refused, or the evidence is that after it.
  abbrev pub Passes : List LogRow → LogRow → Bool × Collector → Type 0
  Passes rows row (returned, c) =
      ((returned ≡ false) × Around rows row c) ⊎ Matches (rows ++ (row ∷ [])) c

  no_session-same :
      (session : String) (e : Option SessionEvidence) (row : LogRow)
      → given row.session_id ≡ false
      → replay_row tools session e row ≡ e
  unfolding replay_row
  no_session-same session e row none_given = rw none_given refl

  -- A row that says nothing of any session.
  same-Matches :
      (rows : List LogRow) (row : LogRow) (c : Collector)
      → ((session : String) → replay tools session (rows ++ (row ∷ [])) ≡ replay tools session rows)
      → Matches rows c
      → Matches (rows ++ (row ∷ [])) c
  same-Matches rows row c same h session = h session ∙ ap stamped (sym (same session))

  loaded-Passes :
      (fate : Fate) (rows : List LogRow) (row : LogRow) (c : Collector)
      → given row.session_id ≡ true
      → given row.timestamp ≡ true
      → ((session : String) → read_of (replay tools session rows) < row.id)
      → Matches rows c
      → let session = get_or "" row.session_id in
        Passes rows row
          (process_loaded tools fate session row (get_evidence tools fate session row c) c)
  loaded-Passes fate rows row c own timed unread h =
      let session = get_or "" row.session_id in
      let p = get_evidence tools fate session row c in
      let start = get_evidence-replay fate session row rows c timed h in
      let next = process_loaded tools fate session row p c in
      let new : p.evidence.last_event_id < row.id =
        rw (start, get_or-read session (get_or "" row.timestamp) (replay tools session rows))
          (unread session) in
      let newer : column (Dict.get (progress c) session) < row.id =
        rw (column-replay session rows c h) (unread session) in
      elim (process_loaded-TakenIn tools fate session row p c new newer) [
        | inl (left, refused) ↦ inl (refused, inl (λ o. ap (λ rows'. kept rows' o) left ∙ h o))
        | inr (p', done, saved) ↦ inr (
            taken-Matches session row rows c next.1 p' own refl h
              (ap (λ e. absorb tools row (record e { last_event_id = row.id })) (sym start) ∙ done)
              saved)
      ]

  -- The row is handed over where it was not taken in.
  pub process_event-first :
      (rows : List LogRow) (row : LogRow) (c : Collector)
      → given row.timestamp ≡ true
      → ((session : String) → read_of (replay tools session rows) < row.id)
      → Matches rows c
      → Passes rows row (process_event tools row c)
  unfolding process_event replay replay_from
  process_event-first rows row c timed unread h =
      let next = record c { fates = drop 1 c.fates } in
      elim (Bool-cases (given row.session_id)) [
        | inr no_session ↦ rw no_session (
            inr (
              same-Matches rows row next
                (λ o.
                  replay-append tools o none rows (row ∷ [])
                  ∙ no_session-same o (replay_from tools o none rows) row no_session)
                h))
        | inl own ↦ elim (Bool-cases (fate_of c).loads) [
          | inr broken ↦ rw (own, broken) (inl (refl, inl h))
          | inl works ↦
              simp (own, works) (loaded-Passes (fate_of c) rows row next own timed unread h)
        ]
      ]
