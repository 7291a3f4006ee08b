-- ===== src/Core/Audit/Bounds.antt =====
-- The outbox never passes its limit.
use apate.Prelude.{
  ℕ, ◌≤◌, String, ◌≡◌, refl, List, [], ◌∷◌, arith, nat_eq, string_eq, length, take, length-append,
}
use apate.Core.Audit.{
  Event, Store, delete, acknowledge, append, pending, failed, unconfirmed, delivered, deliver,
}
use apate.Core.Audit.Exactly.{Step, appends, delivers, step, run}

module _ {Payload : Type 0} where
  length-delete_le : (id : String) (es : List (Event Payload)) → length (delete id es) ≤ length es
  unfolding delete
  length-delete_le id [] = omega arith
  length-delete_le id (e ∷ es) = ground (arith, length-delete_le id es)

  length-acknowledge_le :
      (es outbox : List (Event Payload)) → length (acknowledge es outbox) ≤ length outbox
  unfolding acknowledge
  length-acknowledge_le [] outbox = omega arith
  length-acknowledge_le (e ∷ es) outbox =
      omega (arith, length-acknowledge_le es (delete e.0 outbox), length-delete_le e.0 outbox)

module _ {Payload : Type 0} (encoded_size : Payload → ℕ) where
  step-bounded :
      (c : Step Payload) (x : Store Payload × List (Event Payload))
      → length x.0.outbox ≤ x.0.limit
      → (length (step encoded_size c x).0.outbox ≤ (step encoded_size c x).0.limit)
        × ((step encoded_size c x).0.limit ≡ x.0.limit)
  unfolding step append deliver pending
  step-bounded (appends id payload) x h =
      ground (arith, length-append x.0.outbox ((id, payload) ∷ []))
  step-bounded (delivers failed) x h = (h, refl)
  step-bounded (delivers unconfirmed) x h = (h, refl)
  step-bounded (delivers delivered) x h =
      (omega (arith, length-acknowledge_le (take 100 x.0.outbox) x.0.outbox), refl)

  -- From an outbox within its limit no run of appends and deliveries fills it beyond the limit.
  run-bounded :
      (cs : List (Step Payload)) (x : Store Payload × List (Event Payload))
      → length x.0.outbox ≤ x.0.limit
      → length (run encoded_size cs x).0.outbox ≤ x.0.limit
  unfolding run
  run-bounded [] x h = h
  run-bounded (c ∷ cs) x h =
      let p = step-bounded c x h in omega (arith, run-bounded cs (step encoded_size c x) p.0)
