-- ===== src/Core/Scoped/Tests.antt =====
-- Keys, scripts and commands of two concrete sessions.
use apate.Prelude.{◌≡◌, refl, ◌≢◌, arith, nat_eq, string_eq}
use apate.Core.Scoped.{Text, codes, starts_with, key, replace_from, replace, script, session_prefix}
use apate.Core.Scoped.Isolation.{sessions_disjoint, has_colon}

-- Its line opens what a test has to compute with.
scripted : Text → Text
unfolding script replace replace_from starts_with
scripted = script (codes "session:a:")

script_test :
    scripted (codes "redis.call('GET', 'fs:next_inode') .. \"fs:dir:\"")
    ≡ codes "redis.call('GET', 'session:a:fs:next_inode') .. \"session:a:fs:dir:\""
unfolding scripted
script_test = refl

sessions_disjoint_example :
    key (session_prefix (codes "a")) (codes "fs:dir:1")
    ≢ key (session_prefix (codes "b")) (codes "fs:dir:1")
unfolding starts_with has_colon
sessions_disjoint_example =
    sessions_disjoint (codes "a") (codes "b") (codes "fs:dir:1") (codes "fs:dir:1") refl refl
      (λ e. ground arith) refl refl
