-- ===== src/Core/Audit/Exactly.antt =====
-- Exactly once: what a run of appends and deliveries leaves in the log and in the outbox.
use apate.Prelude.{
  subst, append_assoc, ℕ, String, ◌≡◌, refl, sym, ap, ◌∙◌, inl, inr, false, List, [], ◌∷◌, ◌++◌,
  arith, ltb, leb, if◌then◌else◌, nat_eq, string_eq, ==-symm, Bool-cases, is_some, length,
  append-nil,
}
use apate.Core.Audit.{Event, Store, has_id, append, Round, deliver}
use apate.Core.Audit.Delivery.{Distinct, has_id-append, Distinct-append_left}
use apate.Core.Audit.Runs.{IsDelivering, deliver-IsDelivering}

-- A client's append under a new event id, or a turn of the worker.
pub data Step (Payload : Type 0) : Type 0 where
  appends : String → Payload → Step Payload
  delivers : Round → Step Payload

append-eq-nil : {A : Type 0} (xs ys : List A) → xs ++ ys ≡ [] → ys ≡ []
append-eq-nil [] ys e = e
append-eq-nil (x ∷ xs) ys e = cc

module _ {Payload : Type 0} (encoded_size : Payload → ℕ) where
  -- The store, and beside it what `append` admitted, oldest first.
  unfoldable pub step :
      Step Payload → Store Payload × List (Event Payload) → Store Payload × List (Event Payload)
  step (appends id payload) (s, history) =
      let (outcome, s') = append encoded_size id payload s in
      (s', if is_some outcome then history else history ++ (id, payload) ∷ [])
  step (delivers r) (s, history) = (deliver r s, history)

  unfoldable pub run :
      List (Step Payload)
      → Store Payload × List (Event Payload)
      → Store Payload × List (Event Payload)
  run [] x = x
  run (c ∷ cs) x = run cs (step c x)

  -- Every append brings an id that was not admitted before, as a new UUID does.
  abbrev pub Fresh : List (Step Payload) → Store Payload × List (Event Payload) → Type 0
  Fresh [] x = Unit
  Fresh (appends id payload ∷ cs) x =
      (has_id id x.1 ≡ false) × Fresh cs (step (appends id payload) x)
  Fresh (delivers r ∷ cs) x = Fresh cs (step (delivers r) x)

  Distinct-snoc :
      (xs : List (Event Payload)) (e : Event Payload)
      → has_id e.0 xs ≡ false
      → Distinct xs
      → Distinct (xs ++ e ∷ [])
  unfolding has_id
  Distinct-snoc [] e h d = (refl, tt)
  Distinct-snoc (x ∷ xs) e h d = (
    ground (arith, has_id-append x.0 xs (e ∷ []), ==-symm x.0 e.0),
    Distinct-snoc xs e (ground arith) d.1,
  )

  append-IsDelivering :
      (id : String) (payload : Payload) (s : Store Payload) (history : List (Event Payload))
      → has_id id history ≡ false
      → IsDelivering history s
      → let x = step (appends id payload) (s, history) in IsDelivering x.1 x.0
  unfolding step append
  append-IsDelivering id payload s history new d =
      elim (Bool-cases (ltb 65536 (encoded_size payload))) [
        | inl big ↦ rw (big, append) d
        | inr small ↦ elim (Bool-cases (leb s.limit (length s.outbox))) [
          | inl full' ↦ rw (small, full', append) d
          | inr room ↦ elim (Bool-cases (has_id id s.outbox)) [
            | inl known ↦ rw (small, room, known, append) d
            | inr free ↦
                rw (small, room, free, append)
                  (record {
                    acked = d.acked;
                    kept = d.kept;
                    waiting = d.waiting ++ (id, payload) ∷ [];
                    all =
                        ap (λ (l : List (Event Payload)). l ++ (id, payload) ∷ []) d.all
                        ∙ append_assoc d.acked (d.kept ++ d.waiting) ((id, payload) ∷ [])
                        ∙ ap (λ (l : List (Event Payload)). d.acked ++ l)
                            (append_assoc d.kept d.waiting ((id, payload) ∷ []));
                    logged = d.logged;
                    outbox =
                        ap (λ (l : List (Event Payload)). l ++ (id, payload) ∷ []) d.outbox
                        ∙ append_assoc d.kept d.waiting ((id, payload) ∷ []);
                    distinct = Distinct-snoc history (id, payload) new d.distinct;
                  })
          ]
        ]
      ]

  run-IsDelivering :
      (cs : List (Step Payload)) (x : Store Payload × List (Event Payload))
      → Fresh cs x
      → IsDelivering x.1 x.0
      → IsDelivering (run cs x).1 (run cs x).0
  unfolding run
  run-IsDelivering [] x f d = d
  run-IsDelivering (appends id payload ∷ cs) x f d =
      run-IsDelivering cs (step (appends id payload) x) f.1
        (append-IsDelivering id payload x.0 x.1 f.0 d)
  run-IsDelivering (delivers r ∷ cs) x f d =
      run-IsDelivering cs (step (delivers r) x) f (unfold step in deliver-IsDelivering r x.1 x.0 d)

  abbrev pub empty : ℕ → Store Payload × List (Event Payload)
  empty n = (record { outbox = []; audit_log = []; limit = n }, [])

  -- Exactly once. After any interleaving of appends under new ids and worker turns, with commits
  -- that fail or go unconfirmed among them: no two rows of audit_log share an event id; the rows
  -- are the first of the admitted events, in their order; those that are not there yet end the
  -- outbox; and when the outbox is empty, audit_log is all that was admitted.
  pub delivery_exactly_once :
      (n : ℕ) (cs : List (Step Payload))
      → Fresh cs (empty n)
      → let x = run cs (empty n) in
        Distinct x.0.audit_log
        × ((waiting : List (Event Payload)) × (x.1 ≡ x.0.audit_log ++ waiting)
            × ((kept : List (Event Payload)) × (x.0.outbox ≡ kept ++ waiting)))
        × (x.0.outbox ≡ [] → x.0.audit_log ≡ x.1)
  delivery_exactly_once n cs f =
      let start : IsDelivering {Payload = Payload} [] (empty n).0 = record {
        acked = [];
        kept = [];
        waiting = [];
        all = refl;
        logged = refl;
        outbox = refl;
        distinct = tt;
      } in
      let d = run-IsDelivering cs (empty n) f start in
      let whole : (run cs (empty n)).1 ≡ (run cs (empty n)).0.audit_log ++ d.waiting =
        d.all
        ∙ sym (append_assoc d.acked d.kept d.waiting)
        ∙ ap (λ (l : List (Event Payload)). l ++ d.waiting) (sym d.logged) in
      (
        Distinct-append_left _ d.waiting (subst Distinct whole d.distinct),
        (d.waiting, whole, (d.kept, d.outbox)),
        λ e.
            let w = append-eq-nil d.kept d.waiting (sym d.outbox ∙ e) in
            sym (
              whole
              ∙ ap (λ (l : List (Event Payload)). (run cs (empty n)).0.audit_log ++ l) w
              ∙ append-nil _),
      )
