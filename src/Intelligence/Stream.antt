-- ===== src/Intelligence/Stream.antt =====
-- src/chronos/intelligence/inference.py, `InferenceRuntime.generate`: the reading of the model's
-- answer, a stream of JSON lines that comes in chunks. `loads` stands for json.loads, with `none`
-- where it raises ValueError.
pub mod Binding
pub mod Chunks
pub mod Answers
pub mod Tests
use apate.Prelude.{
  concat, ℕ, zero, suc, ◌+◌, String, Bool, true, false, not, ◌&&◌, ◌||◌, Option, none, some, List,
  [], ◌∷◌, ◌++◌, ltb, nat_beq, if◌then◌else◌, nat_eq, string_eq, length, contains,
}
use apate.Core.Content.{Bytes, rounds}
use apate.Intelligence.Breaker.{Attempt, answered, request_error, value_error, other_error}

-- What the code asks of a loaded line: is it a dict, the `response` if it is a str, `done` if it is
-- a bool, whether done_reason is "length", and whether the durations in it can be divided by 1e9.
pub record Loaded : Type 0 where
  pub is_dict : Bool
  pub response : Option String
  pub done : Option Bool
  pub cut_at_limit : Bool
  pub has_durations : Bool

-- `parts` and `completed`
pub record Answer : Type 0 where
  pub parts : List String
  pub completed : Bool

-- The classes of exceptions: of `requests`, ValueError, and another.
pub data Fault : Type 0 where
  request_fault value_fault other_fault : Fault

unfoldable pub attempt_of : Fault → Attempt
attempt_of request_fault = request_error
attempt_of value_fault = value_error
attempt_of other_fault = other_error

-- Reading goes on, or an exception ends the attempt.
pub data Reading {ℓ} (A : Type ℓ) : Type ℓ where
  going : A → Reading A
  failed : Fault → Reading A

infixl 5 ◌>>=◌
abbrev pub ◌>>=◌ {ℓ κ} : {A : Type ℓ} {B : Type κ} → Reading A → (A → Reading B) → Reading B
going a >>= f = f a
failed e >>= f = failed e

abbrev pub newline : ℕ
newline = 10

-- not line.strip()
unfoldable pub is_blank : Bytes → Bool
is_blank [] = true
is_blank (b ∷ bs) = contains (9 ∷ newline ∷ 11 ∷ 12 ∷ 13 ∷ 32 ∷ []) b && is_blank bs

-- `b'\n' in pending`, and then pending.partition(b'\n')
unfoldable pub partition : Bytes → Option (Bytes × Bytes)
partition [] = none
partition (b ∷ bs) =
    if nat_beq b newline
    then some ([], bs)
    else elim (partition bs) [ none ↦ none | some (line, rest) ↦ some (b ∷ line, rest) ]

-- The event of a line: the schema, the part, the end and its reason.
unfoldable pub take_event : Loaded → Answer → Reading Answer
take_event event a = elim event.response [
  | none ↦ failed value_fault
  | some response ↦ elim event.done [
    | none ↦ failed value_fault
    | some done ↦
        if not event.is_dict || a.completed
        then failed value_fault
        else if done && not event.has_durations
        then failed other_fault
        else if event.cut_at_limit
        then failed value_fault
        else going (record { parts = a.parts ++ (response ∷ []); completed = done })
  ]
]

module _ (loads : Bytes → Option Loaded) where
  unfoldable pub on_line : Bytes → Answer → Reading Answer
  on_line line a =
      if is_blank line
      then going a
      else elim (loads line) [ none ↦ failed value_fault | some event ↦ take_event event a ]

  -- The loop `while b'\n' in pending`; it takes at most as many rounds as there are bytes.
  unfoldable pub take_lines : ℕ → Bytes → Answer → Reading (Bytes × Answer)
  take_lines zero pending a = going (pending, a)
  take_lines (suc rounds) pending a = elim (partition pending) [
    | none ↦ going (pending, a)
    | some (line, remainder) ↦ on_line line a >>= λ a'. take_lines rounds remainder a'
  ]

abbrev pub max_received : ℕ
max_received = 262144

-- What iter_content gives: a chunk, after which the deadline has passed or not, or an exception.
pub data Arrival : Type 0 where
  chunk : Bytes → Bool → Arrival
  broken : Fault → Arrival

abbrev pub no_answer : Answer
no_answer = record { parts = []; completed = false }

-- ''.join(parts)
unfoldable pub join : List String → String
join [] = ""
join (part ∷ parts) = concat part (join parts)

-- After the loop over the chunks.
unfoldable pub ended : Bytes × Answer → Attempt
ended (pending, a) =
    if not (is_blank pending) || not a.completed then value_error else answered (join a.parts)

-- The handler of exceptions in the loop: past the deadline each is a RequestException.
unfoldable pub handled : Bool → Fault → Attempt
handled late e = if late then request_error else attempt_of e

module _ (loads : Bytes → Option Loaded) where
  unfoldable pub read_chunks : List Arrival → Bytes → ℕ → Answer → Reading (Bytes × Answer)
  read_chunks [] pending received a = going (pending, a)
  read_chunks (broken e ∷ arrivals) pending received a = failed e
  read_chunks (chunk bytes late ∷ arrivals) pending received a =
      if ltb max_received (received + length bytes) || late
      then failed request_fault
      else (take_lines loads (length (pending ++ bytes)) (pending ++ bytes) a >>= λ s.
          read_chunks arrivals s.0 (received + length bytes) s.1)

  -- The attempt after `requests.post`: `ok_status` says that raise_for_status does not raise, and
  -- `late` whether the deadline has passed where an exception is handled.
  unfoldable pub read_response : Bool → Bool → List Arrival → Attempt
  read_response ok_status late arrivals =
      if not ok_status then request_error else elim (read_chunks arrivals [] 0 no_answer) [
        | failed e ↦ handled late e
        | going s ↦ ended s
      ]
