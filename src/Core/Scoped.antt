-- ===== src/Core/Scoped.antt =====
-- src/chronos/core/scoped_redis.py: every filesystem key of a session gets the session's prefix at
-- the Redis boundary. Texts are lists of character codes.
pub mod Isolation
pub mod Tests
use Prim.Native.Char.{Char, code}
use apate.Prelude.{
  ℕ, zero, suc, ◌-◌, String, Bool, true, false, not, ◌&&◌, Option, none, some, List, [], ◌∷◌, ◌++◌,
  map, nat_beq, if◌then◌else◌, nat_eq, string_eq, length, take, drop, contains, incr, ◌||◌,
}

abbrev pub Text : Type 0
Text = List ℕ

abbrev pub codes : String → Text
codes String.[] = []
codes (String.◌∷◌ c s) = code c ∷ codes s

-- text.startswith(start)
unfoldable pub starts_with : Text → Text → Bool
starts_with [] text = true
starts_with (c ∷ start) [] = false
starts_with (c ∷ start) (d ∷ text) = nat_beq c d && starts_with start text

abbrev pub fs : Text
fs = codes "fs:"

unfoldable pub key : Text → Text → Text
key prefix value = if starts_with fs value then prefix ++ value else value

-- source.replace(old, new), for a text `old` that is not empty: occurrences from the left that do
-- not overlap. `skip` counts the characters of the last one that are still to be passed over.
unfoldable pub replace_from : ℕ → Text → Text → Text → Text
replace_from skip old new [] = []
replace_from (suc skip) old new (c ∷ rest) = replace_from skip old new rest
replace_from zero old new (c ∷ rest) =
    let found = new ++ replace_from (length old - 1) old new rest in
    let passed = c ∷ replace_from 0 old new rest in
    if starts_with old (c ∷ rest) then found else passed

unfoldable pub replace : Text → Text → Text → Text
replace = replace_from 0

-- `ScopedRedis.script`: the keys that a Lua source builds, under either quote.
unfoldable pub script : Text → Text → Text
script prefix source =
    replace (b'"' ∷ fs) (b'"' ∷ prefix ++ fs) (replace (b'\'' ∷ fs) (b'\'' ∷ prefix ++ fs) source)

abbrev pub first_key : List String
first_key =
    "get" ∷ "set" ∷ "setex" ∷ "hgetall" ∷ "hget" ∷ "hset" ∷ "hsetnx" ∷ "hincrby" ∷ "incr" ∷ "incrby"
    ∷ "expire" ∷ "zscore" ∷ "zrange" ∷ "zadd" ∷ "zrem" ∷ "zcard" ∷ "lock" ∷ []

abbrev pub all_keys : List String
all_keys = "watch" ∷ "delete" ∷ "exists" ∷ []

abbrev pub no_keys : List String
no_keys = "multi" ∷ "execute" ∷ "reset" ∷ "unwatch" ∷ "close" ∷ []

abbrev scope_first : Text → List Text → List Text
scope_first prefix [] = []
scope_first prefix (k ∷ args) = key prefix k ∷ args

unfoldable pub in_first_key : String → Bool
in_first_key name = contains first_key name

unfoldable pub in_all_keys : String → Bool
in_all_keys name = contains all_keys name

unfoldable pub in_no_keys : String → Bool
in_no_keys name = contains no_keys name

-- `ScopedRedis.__getattr__`: the arguments that reach Redis, or `none` for AttributeError.
unfoldable pub getattr : Text → String → List Text → Option (List Text)
getattr prefix name args =
    if not (in_first_key name || in_all_keys name || in_no_keys name)
    then none
    else if in_first_key name
    then some (scope_first prefix args)
    else if in_all_keys name
    then some (map (key prefix) args)
    else some args

-- `ScopedRedis.eval`: the source, and the arguments of which the first `count` are keys.
unfoldable pub eval : Text → Text → ℕ → List Text → Text × List Text
eval prefix source count args =
    (script prefix source, map (key prefix) (take count args) ++ drop count args)

-- The prefix that `ChronosFUSE._session` gives a session, f"session:{session_id}:".
unfoldable pub session_prefix : Text → Text
session_prefix session_id = codes "session:" ++ session_id ++ b':' ∷ []
