-- ===== src/Core/Evidence/Fenced.antt =====
-- Evidence never goes back, in whatever order its writes arrive.
use apate.Prelude.{
  ℕ, ◌≤◌, String, ◌≡◌, Bool, some, List, [], ◌∷◌, nat_eq, string_eq, subst, refl, sym, ◌∙◌, inl,
  inr, true, false, arith, ltb, if◌then◌else◌, ◌==◌, Bool-cases, Option-cases,
}
use apate.Dict
use apate.Dict.{get-put_self, Dict, get-put}
use apate.Core.Evidence.{Evidence, Tables, upsert, flush_evidence}

-- A flush: the connection, whether it works, the session and its evidence.
abbrev pub Flush : Type 0 → Type 0
Flush Fields = Bool × Bool × String × Evidence Fields

-- The session has a row, with this start time, that has read at least so far.
pub record HasRead {Fields : Type 0} (t : Tables Fields) (session : String) (begun read : ℕ)
    : Type 0 where
  pub row : Evidence Fields
  pub there : Dict.get t.session_evidence session ≡ some row
  pub same_start : row.start_time ≡ begun
  pub no_less : read ≤ row.last_event_id

module _ {Fields : Type 0} where
  abbrev pub flush_all : List (Flush Fields) → Tables Fields → Tables Fields
  flush_all [] t = t
  flush_all ((connected, works, session, new) ∷ rest) t =
      flush_all rest (flush_evidence connected works session new t).1

  upsert-other :
      (rows : Dict String (Evidence Fields)) (session other : String) (new : Evidence Fields)
      → (session == other) ≡ false
      → Dict.get (upsert session new rows) other ≡ Dict.get rows other
  unfolding upsert
  upsert-other rows session other new ne = elim (Option-cases (Dict.get rows session)) [
    | inl e ↦ ground (arith, get-put rows session other new)
    | inr (old, e) ↦
        ground (arith, get-put rows session other (record new { start_time = old.start_time }))
  ]

  upsert-same :
      (rows : Dict String (Evidence Fields)) (session : String) (new old : Evidence Fields)
      → Dict.get rows session ≡ some old
      → Dict.get (upsert session new rows) session ≡ (
          if ltb old.last_event_id new.last_event_id
          then some (record new { start_time = old.start_time })
          else some old)
  unfolding upsert
  upsert-same rows session new old h =
      ground (arith, get-put_self rows session (record new { start_time = old.start_time }))

  upsert-keeps :
      (t : Tables Fields) (session other : String) (new : Evidence Fields) (begun read : ℕ)
      → HasRead t other begun read
      → HasRead
          (record t { session_evidence = upsert session new t.session_evidence })
          other
          begun
          read
  upsert-keeps t session other new begun read h = elim (Bool-cases (session == other)) [
    | inr ne ↦ record {
      row = h.row;
      there = upsert-other t.session_evidence session other new ne ∙ h.there;
      same_start = h.same_start;
      no_less = h.no_less;
    }
    | inl e ↦
        let same = (string_eq.beq_iff session other).0 e in
        let rows = t.session_evidence in
        let there' = upsert-same rows other new h.row h.there in
        let moved =
          subst
            (λ (k : String). Dict.get (upsert k new rows) other ≡ (
              if ltb h.row.last_event_id new.last_event_id
              then some (record new { start_time = h.row.start_time })
              else some h.row))
            (sym same) there' in
        elim (Bool-cases (ltb h.row.last_event_id new.last_event_id)) [
          | inl l ↦ record {
            row = record new { start_time = h.row.start_time };
            there = moved ∙ (rw l refl);
            same_start = h.same_start;
            no_less = let least = h.no_less in ground arith;
          }
          | inr l ↦ record {
            row = h.row;
            there = moved ∙ (rw l refl);
            same_start = h.same_start;
            no_less = h.no_less;
          }
        ]
  ]

  flush-keeps :
      (connected works : Bool) (t : Tables Fields) (session other : String) (new : Evidence Fields)
      (begun read : ℕ)
      → HasRead t other begun read
      → HasRead (flush_evidence connected works session new t).1 other begun read
  unfolding flush_evidence
  flush-keeps false works t session other new begun read h = h
  flush-keeps true false t session other new begun read h = h
  flush-keeps true true t session other new begun read h =
      upsert-keeps t session other new begun read h

  -- Once a session's evidence has read so far in the audit log, it never goes back: after any
  -- flushes of any sessions, in any order, those that fail among them, its row has read at least as
  -- far and has the same start time.
  pub evidence_never_goes_back :
      (flushes : List (Flush Fields)) (t : Tables Fields) (session : String) (begun read : ℕ)
      → HasRead t session begun read
      → HasRead (flush_all flushes t) session begun read
  evidence_never_goes_back [] t session begun read h = h
  evidence_never_goes_back ((connected, works, other, new) ∷ rest) t session begun read h =
      evidence_never_goes_back rest (flush_evidence connected works other new t).1 session begun
        read (flush-keeps connected works t other session new begun read h)
