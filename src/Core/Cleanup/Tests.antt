-- ===== src/Core/Cleanup/Tests.antt =====
-- session_cleanup.py: a round of the reaper on a small Redis.
use apate.Prelude.{
  ℕ, ◌≡◌, refl, Bool, true, false, Option, none, some, List, [], ◌∷◌, arith, if◌then◌else◌, nat_eq,
  string_eq, length, All,
}
use apate.Dict
use apate.Dict.{Dict}
use apate.Core.Scoped.{Text, codes, starts_with, session_prefix}
use apate.Core.Scoped.Isolation.{has_colon}
use apate.Core.Cleanup.{
  text_eq, same_codes, ends_with, until_colon, after_colon, active_sessions, has_counter,
  machine_state_key, belongs, Mount, is_canonical, candidates, orphan_sessions, delete_namespace,
  remove_session, reap_session, reap_all, reap_round,
}
use apate.Core.Cleanup.Spares.{Keeps, reap_round_spares_active}
use apate.Core.Cleanup.Clears.{IsGone, reap_round_clears_orphans}

-- A text without a colon stands for a UUID.
abbrev plain_uuid : Text → Option Text
plain_uuid t = if has_colon t then none else some t

plain_uuid-colonless : (t : Text) → plain_uuid t ≡ some t → has_colon t ≡ false
plain_uuid-colonless t e = ground arith

-- The session `a` has a worker, and `b` has none.
abbrev two_sessions : Mount
two_sessions = record {
  keys =
      (codes "session_pid:77", codes "a")
      ∷ (codes "session:a:fs:next_inode", codes "9")
      ∷ (codes "session:b:fs:next_inode", codes "5")
      ∷ (codes "session:b:fs:dir:1", [])
      ∷ (codes "chronos:machine_state:a", [])
      ∷ (codes "chronos:machine_state:b", [])
      ∷ [];
  sessions = (codes "a", 1) ∷ (codes "b", 2) ∷ [];
  closed = [];
  fd_table = (10, codes "a") ∷ (11, codes "b") ∷ [];
}

abbrev orphans : List Text
unfolding orphan_sessions candidates active_sessions has_counter until_colon after_colon
    is_canonical ends_with same_codes starts_with has_colon
orphans = orphan_sessions plain_uuid two_sessions.keys

one_orphan : orphans ≡ codes "b" ∷ []
unfolding orphans
one_orphan = refl

abbrev after : (ℕ → Bool) → Mount
unfolding orphans reap_round reap_all reap_session remove_session delete_namespace belongs
    session_prefix machine_state_key Dict.get Dict.remove
after closes = reap_round plain_uuid closes two_sessions

names_left : length (after (λ g. true)).keys ≡ 3
unfolding after
names_left = refl

close_raises : length (after (λ g. false)).keys ≡ 6
unfolding after
close_raises = refl

reap_round_spares_active_example :
    Keeps (codes "a") two_sessions (reap_round plain_uuid (λ g. true) two_sessions)
unfolding active_sessions same_codes starts_with has_colon
reap_round_spares_active_example =
    reap_round_spares_active plain_uuid plain_uuid-colonless (λ g. true) (codes "a") two_sessions
      refl refl

reap_round_clears_orphans_example :
    All
      (λ sid. IsGone sid (reap_round plain_uuid (λ g. true) two_sessions))
      (orphan_sessions plain_uuid two_sessions.keys)
reap_round_clears_orphans_example =
    reap_round_clears_orphans plain_uuid (λ g. true) (λ g. refl) two_sessions
