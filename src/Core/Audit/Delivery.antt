-- ===== src/Core/Audit/Delivery.antt =====
-- One delivery: what inserting and acknowledging a batch do to events with different ids.
use apate.Prelude.{
  String, ◌≡◌, refl, sym, ◌∙◌, true, false, ◌||◌, List, [], ◌∷◌, ◌++◌, arith, nat_eq, string_eq,
  ==_refl, ==-symm, All, All-map, append-nil, append_assoc,
}
use apate.Core.Audit.{Event, has_id, insert, insert_all, delete, acknowledge}

module _ {Payload : Type 0} where
  abbrev pub Distinct : List (Event Payload) → Type 0
  Distinct [] = Unit
  Distinct (e ∷ es) = (has_id e.0 es ≡ false) × Distinct es

  pub has_id-append :
      (id : String) (xs ys : List (Event Payload))
      → has_id id (xs ++ ys) ≡ (has_id id xs || has_id id ys)
  unfolding has_id
  has_id-append id [] ys = refl
  has_id-append id (x ∷ xs) ys = ground (arith, has_id-append id xs ys)

  pub Distinct-append_left : (xs ys : List (Event Payload)) → Distinct (xs ++ ys) → Distinct xs
  Distinct-append_left [] ys d = tt
  Distinct-append_left (x ∷ xs) ys d =
      (ground (arith, has_id-append x.0 xs ys), Distinct-append_left xs ys d.1)

  pub Distinct-append_right : (xs ys : List (Event Payload)) → Distinct (xs ++ ys) → Distinct ys
  Distinct-append_right [] ys d = d
  Distinct-append_right (x ∷ xs) ys d = Distinct-append_right xs ys d.1

  -- An event behind others has none of their ids.
  has_id-before :
      (xs ys : List (Event Payload)) (y : Event Payload)
      → Distinct (xs ++ y ∷ ys)
      → has_id y.0 xs ≡ false
  unfolding has_id
  has_id-before [] ys y d = refl
  has_id-before (x ∷ xs) ys y d =
      ground (arith, has_id-append x.0 xs (y ∷ ys), has_id-before xs ys y d.1, ==-symm x.0 y.0)

  -- A new batch goes to the end of the log.
  pub insert_all-new :
      (log ys : List (Event Payload)) → Distinct (log ++ ys) → insert_all log ys ≡ log ++ ys
  unfolding insert_all insert
  insert_all-new log [] d = sym (append-nil log)
  insert_all-new log (y ∷ ys) d =
      rw (has_id-before log ys y d)
        (insert_all-new (log ++ y ∷ []) ys (rw append_assoc d) ∙ append_assoc log (y ∷ []) ys)

  -- Events that are in the log already change nothing.
  pub insert_all-old :
      (log xs : List (Event Payload))
      → All (λ e. has_id e.0 log ≡ true) xs
      → insert_all log xs ≡ log
  unfolding insert_all insert
  insert_all-old log [] h = refl
  insert_all-old log (x ∷ xs) h = rw h.0 (insert_all-old log xs h.1)

  pub insert_all-append :
      (log xs ys : List (Event Payload))
      → insert_all log (xs ++ ys) ≡ insert_all (insert_all log xs) ys
  unfolding insert_all
  insert_all-append log [] ys = refl
  insert_all-append log (x ∷ xs) ys = insert_all-append (insert log x) xs ys

  has_id-own : (ys : List (Event Payload)) → All (λ e. has_id e.0 ys ≡ true) ys
  unfolding has_id
  has_id-own [] = tt
  has_id-own (y ∷ ys) = (
    rw ==_refl,
    All-map (λ (e : Event Payload). has_id e.0 ys ≡ true)
        (λ (e : Event Payload). has_id e.0 (y ∷ ys) ≡ true) (λ e h. ground arith) ys
        (has_id-own ys),
  )

  pub All-has_id : (xs ys : List (Event Payload)) → All (λ e. has_id e.0 (xs ++ ys) ≡ true) ys
  All-has_id xs ys =
      All-map (λ (e : Event Payload). has_id e.0 ys ≡ true)
        (λ (e : Event Payload). has_id e.0 (xs ++ ys) ≡ true)
        (λ e h. ground (arith, has_id-append e.0 xs ys)) ys (has_id-own ys)

  delete-absent :
      (id : String) (xs : List (Event Payload)) → has_id id xs ≡ false → delete id xs ≡ xs
  unfolding delete has_id
  delete-absent id [] h = refl
  delete-absent id (x ∷ xs) h = ground (arith, delete-absent id xs)

  -- Acknowledging a batch at the head of the outbox removes the batch.
  pub acknowledge-head :
      (xs ys : List (Event Payload)) → Distinct (xs ++ ys) → acknowledge xs (xs ++ ys) ≡ ys
  unfolding acknowledge delete
  acknowledge-head [] ys d = refl
  acknowledge-head (x ∷ xs) ys d =
      rw (==_refl x.0, delete-absent x.0 (xs ++ ys) d.0) (acknowledge-head xs ys d.1)
