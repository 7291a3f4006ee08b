-- ===== src/Core/Audit.antt =====
-- src/chronos/core/audit_spool.py and the delivery in src/chronos/core/persistence.py: the durable
-- outbox of audit events, and the worker that moves it into PostgreSQL's audit_log. `Payload` is
-- an event's content, `encoded_size` the length of its JSON text, which is read back unchanged.
pub mod Delivery
pub mod Runs
pub mod Exactly
pub mod Bounds
pub mod Tests
use apate.Prelude.{
  ℕ, String, Bool, false, ◌||◌, Option, none, some, List, [], ◌∷◌, ◌++◌, ltb, leb, if◌then◌else◌,
  ◌==◌, nat_eq, string_eq, length, take, is_empty,
}

pub data SpoolError : Type 0 where
  too_large full duplicate_id : SpoolError

-- `none` is a normal return.
abbrev pub Outcome : Type 0
Outcome = Option SpoolError

module _ (Payload : Type 0) where
  abbrev pub Event : Type 0
  Event = String × Payload

  -- The outbox by sequence number, the rows of audit_log by id, and the outbox's limit.
  pub record Store : Type 0 where
    pub outbox : List Event
    pub audit_log : List Event
    pub limit : ℕ

module _ {Payload : Type 0} where
  -- A row with this event_id is there.
  unfoldable pub has_id : String → List (Event Payload) → Bool
  has_id id [] = false
  has_id id (e ∷ es) = e.0 == id || has_id id es

  -- `ON CONFLICT (event_id) DO NOTHING`
  unfoldable pub insert : List (Event Payload) → Event Payload → List (Event Payload)
  insert log e = if has_id e.0 log then log else log ++ e ∷ []

  unfoldable pub insert_all : List (Event Payload) → List (Event Payload) → List (Event Payload)
  insert_all log [] = log
  insert_all log (e ∷ es) = insert_all (insert log e) es

  -- `DELETE FROM outbox WHERE event_id=?` for one id, and for each of a batch.
  unfoldable pub delete : String → List (Event Payload) → List (Event Payload)
  delete id [] = []
  delete id (e ∷ es) = let rest = delete id es in if e.0 == id then rest else e ∷ rest

  unfoldable pub acknowledge : List (Event Payload) → List (Event Payload) → List (Event Payload)
  acknowledge [] outbox = outbox
  acknowledge (e ∷ es) outbox = acknowledge es (delete e.0 outbox)

  module _ (encoded_size : Payload → ℕ) where
    -- `AuditSpool.append`; the event id is the new UUID.
    unfoldable pub append : String → Payload → Store Payload → Outcome × Store Payload
    append id payload s =
        if ltb 65536 (encoded_size payload)
        then (some too_large, s)
        else if leb s.limit (length s.outbox)
        then (some full, s)
        else if has_id id s.outbox
        then (some duplicate_id, s)
        else (none, record s { outbox = s.outbox ++ (id, payload) ∷ [] })

  -- `AuditSpool.pending`
  unfoldable pub pending : ℕ → Store Payload → List (Event Payload)
  pending n s = take n s.outbox

-- How a worker round goes: the connection or the transaction fails, the commit takes place and the
-- worker does not learn of it (or fails to acknowledge), or all goes well.
pub data Round : Type 0 where
  failed unconfirmed delivered : Round

module _ {Payload : Type 0} where
  -- One turn of `_audit_worker`.
  unfoldable pub deliver : Round → Store Payload → Store Payload
  deliver failed s = s
  deliver unconfirmed s = record s { audit_log = insert_all s.audit_log (pending 100 s) }
  deliver delivered s =
      let batch = pending 100 s in
      record s { audit_log = insert_all s.audit_log batch; outbox = acknowledge batch s.outbox }

  -- `PersistenceLayer.log_operation`: without a session nothing is recorded, and the metadata lose
  -- the entries whose key is `password` in any case, which `redact` stands for.
  unfoldable pub log_operation :
      (Payload → ℕ)
      → (Payload → Payload)
      → Option String
      → String
      → Payload
      → Store Payload
      → Outcome × Store Payload
  log_operation encoded_size redact none id payload s = (none, s)
  log_operation encoded_size redact (some session) id payload s =
      if is_empty session then (none, s) else append encoded_size id (redact payload) s
