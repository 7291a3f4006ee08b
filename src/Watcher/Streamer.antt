-- ===== src/Watcher/Streamer.antt =====
-- src/chronos/watcher/log_streamer.py: the audit log, handed row by row to subscribers. Callbacks
-- are known by their identity; `call` says whether one returns or raises, and what it makes of the
-- state that the subscribers share. `loads` stands for json.loads of a text with an object. The log
-- is the list of the table's rows in the order of their ids, and timestamps are their isoformat().
pub mod Progress
pub mod CatchUp
pub mod Tests
use apate.Prelude.{
  ℕ, String, Bool, true, false, not, Option, none, some, List, [], ◌∷◌, ◌++◌, ltb, if◌then◌else◌,
  ◌==◌, nat_eq, string_eq, take, select, contains,
}
use apate.Dict.{Dict}

-- A row's metadata: an object, a text, or NULL. The values of an object are texts.
pub data Metadata : Type 0 where
  object : Dict String String → Metadata
  text : String → Metadata
  null : Metadata

pub record LogRow : Type 0 where
  pub id : ℕ
  pub timestamp : Option String
  pub operation : Option String
  pub path : Option String
  pub metadata : Metadata
  pub session_id : Option String

pub record Streamer : Type 0 where
  pub subscribers : List ℕ
  pub running : Bool
  pub last_id : ℕ

abbrev pub new_streamer : Streamer
new_streamer = record { subscribers = []; running = false; last_id = 0 }

unfoldable pub subscribe : ℕ → Streamer → Streamer
subscribe callback s = record s { subscribers = s.subscribers ++ (callback ∷ []) }

-- xs.remove(x), the first one
unfoldable pub remove_first : ℕ → List ℕ → List ℕ
remove_first x [] = []
remove_first x (y ∷ ys) = if y == x then ys else y ∷ remove_first x ys

unfoldable pub unsubscribe : ℕ → Streamer → Streamer
unsubscribe callback s =
    if contains s.subscribers callback
    then record s { subscribers = remove_first callback s.subscribers }
    else s

unfoldable pub start : Streamer → Streamer
start s = if s.running then s else record s { running = true }

unfoldable pub stop : Streamer → Streamer
stop s = record s { running = false }

-- `_fetch_new_events`
unfoldable pub fetch_new_events : List LogRow → ℕ → List LogRow
fetch_new_events audit_log last_id = take 1000 (select (λ row. ltb last_id row.id) audit_log)

-- The metadata of a row, parsed where that works.
unfoldable pub prepared : (String → Option (Dict String String)) → LogRow → LogRow
prepared loads row = elim row.metadata [
  | text t ↦ elim (loads t) [ none ↦ row | some fields ↦ record row { metadata = object fields } ]
  | object fields ↦ row
  | null ↦ row
]

module _ {S : Type 0} (loads : String → Option (Dict String String))
    (call : ℕ → LogRow → S → Bool × S) where
  -- `_notify_subscribers`: the first that raises ends it.
  unfoldable pub notify_subscribers : List ℕ → LogRow → S → Bool × S
  notify_subscribers [] event s = (true, s)
  notify_subscribers (subscriber ∷ rest) event s =
      let (returned, s') = call subscriber event s in
      elim returned [ true ↦ notify_subscribers rest event s' | false ↦ (false, s') ]

  -- The loop over the events; a row that was not taken is left for the next poll.
  unfoldable pub deliver : List ℕ → List LogRow → ℕ → S → ℕ × S
  deliver subscribers [] last_id s = (last_id, s)
  deliver subscribers (row ∷ rows) last_id s =
      let (taken, s') = notify_subscribers subscribers (prepared loads row) s in
      elim taken [ true ↦ deliver subscribers rows row.id s' | false ↦ (last_id, s') ]

  -- A round of `_poll_loop`, with the log it reads, or `none` where reading raises.
  unfoldable pub poll : Option (List LogRow) → Streamer → S → Streamer × S
  poll none streamer s = (streamer, s)
  poll (some audit_log) streamer s =
      if not streamer.running
      then (streamer, s)
      else (let (last_id, s') =
            deliver streamer.subscribers (fetch_new_events audit_log streamer.last_id)
              streamer.last_id s in
          (record streamer { last_id = last_id }, s'))

unfoldable pub reversed {ℓ} : {A : Type ℓ} → List A → List A
reversed [] = []
reversed (x ∷ xs) = reversed xs ++ (x ∷ [])

-- `get_recent_events`; an exception gives no events.
unfoldable pub get_recent_events : Option (List LogRow) → ℕ → List LogRow
get_recent_events none limit = []
get_recent_events (some audit_log) limit = take limit (reversed audit_log)
