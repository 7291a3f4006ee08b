-- ===== src/Core/Cleanup.antt =====
-- src/chronos/core/session_cleanup.py and `_reap_sessions` of src/chronos/interface/fuse.py: the
-- namespaces of sessions without a worker are deleted. `uuid` stands for str(uuid.UUID(text)), `none`
-- where it raises. Keys that other clients write during a scan are not considered. Python's sets are
-- lists without repetition.
pub mod Spares
pub mod Clears
pub mod Tests
use apate.Prelude.{
  ℕ, ◌≡◌, refl, ◌↔◌, Bool, true, false, not, ◌&&◌, ◌||◌, Option, none, some, List, [], ◌∷◌, ◌++◌,
  arith, ltb, nat_beq, if◌then◌else◌, nat_beq_iff, Eq, ◌==◌, nat_eq, string_eq, length, drop,
  select, contains,
}
use apate.Dict
use apate.Dict.{Dict}
use apate.Core.Scoped.{Text, codes, starts_with, session_prefix}

unfoldable pub same_codes : Text → Text → Bool
same_codes [] [] = true
same_codes [] (d ∷ u) = false
same_codes (c ∷ t) [] = false
same_codes (c ∷ t) (d ∷ u) = nat_beq c d && same_codes t u

pub same_codes_iff : (t u : Text) → (same_codes t u ≡ true) ↔ (t ≡ u)
unfolding same_codes
same_codes_iff [] [] = (λ h. refl, λ h. refl)
same_codes_iff [] (d ∷ u) = (λ h. absurd (ground arith), λ h. absurd (ground arith))
same_codes_iff (c ∷ t) [] = (λ h. absurd (ground arith), λ h. absurd (ground arith))
same_codes_iff (c ∷ t) (d ∷ u) =
    let rest = same_codes_iff t u in
    (λ h. grind (arith, nat_beq_iff), λ h. grind (arith, nat_beq_iff))

instance abbrev pub text_eq : Eq Text
text_eq = record { beq = same_codes; beq_iff = same_codes_iff }

-- The keys of Redis with their values, of which only those of `session_pid` keys are read.
abbrev pub Keyspace : Type 0
Keyspace = Dict Text Text

-- text.endswith(end)
unfoldable pub ends_with : Text → Text → Bool
ends_with end [] = same_codes end []
ends_with end (c ∷ text) = same_codes end (c ∷ text) || ends_with end text

-- The text up to its first colon, and the text behind it.
unfoldable pub until_colon : Text → Text
until_colon [] = []
until_colon (c ∷ text) = let rest = until_colon text in if nat_beq c b':' then [] else c ∷ rest

unfoldable pub after_colon : Text → Text
after_colon [] = []
after_colon (c ∷ text) = let rest = after_colon text in if nat_beq c b':' then text else rest

-- client.scan_iter(match='session_pid:*') and the values that are not empty
unfoldable pub active_sessions : Keyspace → List Text
active_sessions [] = []
active_sessions ((name, value) ∷ keys) =
    let rest = active_sessions keys in
    if starts_with (codes "session_pid:") name && ltb 0 (length value) then value ∷ rest else rest

-- The pattern 'session:*:fs:next_inode'.
unfoldable pub has_counter : Text → Bool
has_counter name =
    starts_with (codes "session:") name
    && ends_with (codes ":fs:next_inode") (drop (length (codes "session:")) name)

unfoldable pub machine_state_key : Text → Text
machine_state_key session_id = codes "chronos:machine_state:" ++ session_id

-- The keys that `delete_namespace` deletes.
unfoldable pub belongs : Text → Text → Bool
belongs session_id name =
    starts_with (session_prefix session_id) name || name == machine_state_key session_id

-- What the mount keeps: a session's generator by a number, those closed, and the session of each
-- file descriptor.
pub record Mount : Type 0 where
  pub keys : Keyspace
  pub sessions : Dict Text ℕ
  pub closed : List ℕ
  pub fd_table : Dict ℕ Text

module _ (uuid : Text → Option Text) where
  -- str(uuid.UUID(sid)) == sid
  unfoldable pub is_canonical : Text → Bool
  is_canonical sid = elim (uuid sid) [ none ↦ false | some written ↦ written == sid ]

  unfoldable pub candidates : Keyspace → List Text
  candidates [] = []
  candidates ((name, value) ∷ keys) =
      let rest = candidates keys in
      let sid = until_colon (after_colon name) in
      if has_counter name && is_canonical sid && not (contains rest sid) then sid ∷ rest else rest

  unfoldable pub orphan_sessions : Keyspace → List Text
  orphan_sessions keys = select (λ sid. not (contains (active_sessions keys) sid)) (candidates keys)

  -- `none` is the ValueError.
  unfoldable pub delete_namespace : Keyspace → Text → Option Keyspace
  delete_namespace keys session_id =
      if is_canonical session_id
      then some (select (λ row. not (belongs session_id row.0)) keys)
      else none

  -- From `delete_namespace` on; whether it returns.
  unfoldable pub remove_session : Text → Mount → Bool × Mount
  remove_session session_id m = elim (delete_namespace m.keys session_id) [
    | none ↦ (false, m)
    | some keys ↦ (
      true,
      record m {
        keys = keys;
        sessions = Dict.remove m.sessions session_id;
        fd_table = select (λ row. not (row.1 == session_id)) m.fd_table;
      },
    )
  ]

  -- `closes` says whether the close of a generator returns.
  unfoldable pub reap_session : (ℕ → Bool) → Text → Mount → Bool × Mount
  reap_session closes session_id m = elim (Dict.get m.sessions session_id) [
    | none ↦ remove_session session_id m
    | some generator ↦
        if closes generator
        then remove_session session_id (record m { closed = generator ∷ m.closed })
        else (false, m)
  ]

  -- An exception ends the round.
  unfoldable pub reap_all : (ℕ → Bool) → List Text → Mount → Mount
  reap_all closes [] m = m
  reap_all closes (session_id ∷ stale) m =
      let (returns, m') = reap_session closes session_id m in
      if returns then reap_all closes stale m' else m'

  -- One round of `_reap_sessions`.
  unfoldable pub reap_round : (ℕ → Bool) → Mount → Mount
  reap_round closes m = reap_all closes (orphan_sessions m.keys) m
