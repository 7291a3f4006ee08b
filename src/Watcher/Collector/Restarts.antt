-- ===== src/Watcher/Collector/Restarts.antt =====
-- evidence_collector.py with log_streamer.py: the collector as the streamer's subscriber, over
-- exceptions, polls and restarts.
use apate.Watcher.Collector.Once.{kept, progress}
use apate.Watcher.Collector.Replay.{replay_from, replay}
use apate.Watcher.Collector.Ahead.{process_event-ahead, before_unread}
use apate.Prelude.{
  subst, ℕ, String, ◌≡◌, refl, sym, ap, Bool, Option, List, [], ◌∷◌, ◌++◌, map, arith, nat_eq,
  string_eq, Bool-cases, append-nil, ◌⊎◌, inl, inr, true, false, All, append_assoc, ◌∙◌,
}
use apate.Dict
use apate.Dict.{Dict}
use apate.Watcher.Streamer.{LogRow, prepared, notify_subscribers, Streamer}
use apate.Watcher.Streamer.Progress.{
  IsAbove, IsAbove-front, IsKept, StandsAt, poll_all, poll_all-StandsAt,
}
use apate.Watcher.Collector.{given, Collector, Tools, process_event}
use apate.Watcher.Collector.Exactly.{Matches, process_event-first, HasTimes}

map-append {ℓ κ} :
    {A : Type ℓ} {B : Type κ} (f : A → B) (xs ys : List A) → map f (xs ++ ys) ≡ map f xs ++ map f ys
map-append f [] ys = refl
map-append f (x ∷ xs) ys = ap (λ (zs : List _). f x ∷ zs) (map-append f xs ys)

All-middle {ℓ κ} :
    {A : Type ℓ} (P : A → Type κ) (front back : List A) (a : A) → All P (front ++ (a ∷ back)) → P a
All-middle P [] back a h = h.0
All-middle P (x ∷ front) back a h = All-middle P front back a h.1

module _ (loads : String → Option (Dict String String)) (tools : Tools) where
  abbrev prep : LogRow → LogRow
  prep = prepared loads

  -- Parsing the metadata changes nothing else.
  prepared_keeps :
      (row : LogRow) → ((prep row).id ≡ row.id) × ((prep row).timestamp ≡ row.timestamp)
  unfolding prepared
  prepared_keeps row = ground arith

  prepared-IsAbove : (n : ℕ) (rows : List LogRow) → IsAbove n rows → IsAbove n (map prep rows)
  prepared-IsAbove n [] h = tt
  prepared-IsAbove n (row ∷ rows) h = (
    rw (prepared_keeps row).0 h.0,
    subst (λ k. IsAbove k (map prep rows)) (sym (prepared_keeps row).0)
        (prepared-IsAbove row.id rows h.1),
  )

  -- The collector's callback, for whatever identity it has.
  abbrev pub callback : ℕ → LogRow → Collector → Bool × Collector
  callback subscriber = process_event tools

  notify_one :
      (id : ℕ) (row : LogRow) (c : Collector)
      → notify_subscribers loads callback (id ∷ []) row c ≡ process_event tools row c
  unfolding notify_subscribers
  notify_one id row c = ground (arith, Bool-cases (process_event tools row c).0)

  -- The evidence is that of the rows passed and of some that are to come again.
  abbrev pub IsAhead : List LogRow → List LogRow → Collector → Type 0
  IsAhead passed rest c =
      (ahead : List LogRow) × (more : List LogRow) × (ahead ++ more ≡ rest)
      × Matches tools (map prep (passed ++ ahead)) c

  cons-parts {ℓ} : {A : Type ℓ} (x y : A) (xs ys : List A) → x ∷ xs ≡ y ∷ ys → (x ≡ y) × (xs ≡ ys)
  cons-parts x y xs ys e = ground arith

  -- The rows read, with those of the log that are parsed.
  parts-IsAbove :
      (log passed ahead more : List LogRow) (row : LogRow)
      → IsAbove 0 log
      → passed ++ (row ∷ (ahead ++ more)) ≡ log
      → IsAbove 0 (map prep passed ++ (prep row ∷ map prep ahead))
  parts-IsAbove log passed ahead more row above whole =
      let front : IsAbove 0 (passed ++ (row ∷ ahead)) =
        IsAbove-front 0 (passed ++ (row ∷ ahead)) more
          (subst (IsAbove 0) (sym (append_assoc passed (row ∷ ahead) more ∙ whole)) above) in
      subst (IsAbove 0) (map-append prep passed (row ∷ ahead))
        (prepared-IsAbove 0 (passed ++ (row ∷ ahead)) front)

  parts-HasTimes :
      (log passed rest : List LogRow) (row : LogRow)
      → HasTimes log
      → passed ++ (row ∷ rest) ≡ log
      → given (prep row).timestamp ≡ true
  parts-HasTimes log passed rest row timed whole = rw (prepared_keeps row).1 (
      All-middle (λ (r : LogRow). given r.timestamp ≡ true) passed rest row
        (subst HasTimes (sym whole) timed))

  -- The row is handed over: either it is refused, or it is passed.
  handed-IsAhead :
      (log passed rest : List LogRow) (row : LogRow) (c : Collector)
      → IsAbove 0 log
      → HasTimes log
      → passed ++ (row ∷ rest) ≡ log
      → IsAhead passed (row ∷ rest) c
      → let next = process_event tools (prep row) c in
        ((next.0 ≡ false) × IsAhead passed (row ∷ rest) next.1)
        ⊎ IsAhead (passed ++ (row ∷ [])) rest next.1
  handed-IsAhead log passed rest row c above timed whole ([], more, parts, h) =
      let rows = map prep passed in
      let next = process_event tools (prep row) c in
      let at : given (prep row).timestamp ≡ true = parts-HasTimes log passed rest row timed whole in
      let h' : Matches tools rows c =
        subst (λ l. Matches tools (map prep l) c) (append-nil passed) h in
      elim (process_event-first tools rows (prep row) c at
        (λ session.
          before_unread tools session rows [] (prep row)
            (parts-IsAbove log passed [] rest row above whole))
        h') [
          | inl (refused, inl still) ↦ inl (
            refused,
            (
              [],
              row ∷ rest,
              refl,
              subst (λ l. Matches tools (map prep l) next.1) (sym (append-nil passed)) still,
            ),
          )
          | inl (refused, inr after) ↦ inl (
            refused,
            (
              row ∷ [],
              rest,
              refl,
              subst (λ l. Matches tools l next.1) (sym (map-append prep passed (row ∷ []))) after,
            ),
          )
          | inr after ↦ inr (
            [],
            rest,
            refl,
            subst (λ l. Matches tools l next.1)
                (sym (
                  ap (map prep) (append-nil (passed ++ (row ∷ [])))
                  ∙ map-append prep passed (row ∷ [])))
                after,
          )
        ]
  handed-IsAhead log passed rest row c above timed whole (first ∷ ahead, more, parts, h) =
      let (same, behind) = cons-parts first row (ahead ++ more) rest parts in
      let next = process_event tools (prep row) c in
      let at : given (prep row).timestamp ≡ true = parts-HasTimes log passed rest row timed whole in
      let h' : Matches tools (map prep passed ++ (prep row ∷ map prep ahead)) c =
        subst (λ l. Matches tools l c)
          (ap (λ r. map prep (passed ++ (r ∷ ahead))) same ∙ map-append prep passed (row ∷ ahead))
          h in
      let after =
        process_event-ahead tools (map prep passed) (map prep ahead) (prep row) c
          (parts-IsAbove log passed ahead more row above
            (ap (λ l. passed ++ (row ∷ l)) behind ∙ whole))
          at h' in
      inr (
        ahead,
        more,
        behind,
        subst (λ l. Matches tools l next.1)
            (sym (
              ap (map prep) (append_assoc passed (row ∷ []) ahead)
              ∙ map-append prep passed (row ∷ ahead)))
            after,
      )

  again-IsAhead :
      (passed rest : List LogRow) (row : LogRow) (c : Collector)
      → IsAhead (passed ++ (row ∷ [])) rest c
      → IsAhead passed (row ∷ rest) c
  again-IsAhead passed rest row c (ahead, more, parts, h) = (
    row ∷ ahead,
    more,
    ap (λ (l : List LogRow). row ∷ l) parts,
    subst (λ l. Matches tools (map prep l) c) (append_assoc passed (row ∷ []) ahead) h,
  )

  callback-IsKept :
      (id : ℕ) (log : List LogRow)
      → IsAbove 0 log
      → HasTimes log
      → IsKept loads callback (id ∷ []) log IsAhead
  callback-IsKept id log above timed = record {
    on_taken = λ passed rest row c whole h taken.
        let one = notify_one id (prep row) c in
        subst (λ (next : Bool × Collector). IsAhead (passed ++ (row ∷ [])) rest next.1) (sym one)
          (elim (handed-IsAhead log passed rest row c above timed whole h) [
            | inr after ↦ after
            | inl (refused, still) ↦ absurd (ground (arith, one, taken, refused))
          ]);
    on_refused = λ passed rest row c whole h refused.
        let one = notify_one id (prep row) c in
        subst (λ (next : Bool × Collector). IsAhead passed (row ∷ rest) next.1) (sym one)
          (elim (handed-IsAhead log passed rest row c above timed whole h) [
            | inr after ↦ again-IsAhead passed rest row (process_event tools (prep row) c).1 after
            | inl (_, still) ↦ still
          ]);
  }

  -- A process starts: a new streamer with the collector as its subscriber, a new detector, and the
  -- tables as they are.
  abbrev pub started : ℕ → Streamer
  started id = record { subscribers = id ∷ []; running = true; last_id = 0 }

  abbrev pub run_process : List LogRow → List (Option ℕ) → Collector → Streamer × Collector
  run_process log polls c =
      poll_all loads callback log polls (started 0) (record c { sessions = [] })

  -- Processes that ran before, each with its polls.
  unfoldable pub run_processes : List LogRow → List (List (Option ℕ)) → Collector → Collector
  run_processes log [] c = c
  run_processes log (polls ∷ rest) c = run_processes log rest (run_process log polls c).1

  from_start :
      (log : List LogRow) (polls : List (Option ℕ)) (c : Collector)
      → IsAbove 0 log
      → HasTimes log
      → IsAhead [] log c
      → let next = run_process log polls c in
        StandsAt loads callback log IsAhead next.0.last_id next.1
  from_start log polls c above timed h =
      poll_all-StandsAt loads callback log IsAhead polls (started 0) (record c { sessions = [] })
        above (callback-IsKept 0 log above timed)
        (record { passed = []; rest = log; whole = refl; at_last = refl; holds = h })

  -- Where the streamer stands, nothing passed is to come again for the next process alone.
  restart-IsAhead :
      (log : List LogRow) (last_id : ℕ) (c : Collector)
      → StandsAt loads callback log IsAhead last_id c
      → IsAhead [] log c
  restart-IsAhead log last_id c h =
      let (ahead, more, parts, matches) = h.holds in
      (
        h.passed ++ ahead,
        more,
        append_assoc h.passed ahead more ∙ ap (λ r. h.passed ++ r) parts ∙ h.whole,
        matches,
      )

  run_processes-IsAhead :
      (log : List LogRow) (earlier : List (List (Option ℕ))) (c : Collector)
      → IsAbove 0 log
      → HasTimes log
      → IsAhead [] log c
      → IsAhead [] log (run_processes log earlier c)
  unfolding run_processes
  run_processes-IsAhead log [] c above timed h = h
  run_processes-IsAhead log (polls ∷ rest) c above timed h =
      let next = run_process log polls c in
      run_processes-IsAhead log rest next.1 above timed
        (restart-IsAhead log next.0.last_id next.1 (from_start log polls c above timed h))

  -- From empty tables, over any processes that end and start again, any polls and any exceptions of
  -- the databases: the log is cut into rows passed, rows ahead and the rest; the streamer stands
  -- after the rows passed, and the evidence saved for each session is that of a replay of the rows
  -- passed and ahead, each row taken in once and in order. The ids of the log grow and each row has
  -- a time.
  pub evidence_exactly_once :
      (log : List LogRow) (earlier : List (List (Option ℕ))) (polls : List (Option ℕ))
      (c : Collector)
      → IsAbove 0 log
      → HasTimes log
      → progress c ≡ []
      → let next = run_process log polls (run_processes log earlier c) in
        StandsAt loads callback log IsAhead next.0.last_id next.1
  unfolding replay replay_from Dict.get
  evidence_exactly_once log earlier polls c above timed empty =
      from_start log polls (run_processes log earlier c) above timed (
        run_processes-IsAhead log earlier c above timed
          ([], log, refl, λ session. ap (λ rows. kept rows session) empty))
