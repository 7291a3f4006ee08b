-- ===== src/Intelligence/Generation/Tests.antt =====
-- A generation of one manifest file, and instances of the theorems.
use apate.Prelude.{
  ◌+◌, ◌≤◌, String, ◌≡◌, refl, ◌↔◌, ◌⊎◌, true, false, none, some, List, [], ◌∷◌, arith, nat_eq,
  string_eq, get_or, is_empty,
}
use apate.Dict
use apate.Dict.{Dict}
use apate.Core.Errno.{ok}
use apate.Core.Namespace.{no_fields, inode, hset}
use apate.Core.Content.{Bytes, read_blob, execute_write}
use apate.Core.Content.Update.Readers.{hash_of}
use apate.Intelligence.Generation.{
  quota, fallback, ModelCall, retry_quota, try_model, produce, Contents, cached, is_generated_class,
  holds, Store, execute_commit, commit, release, take_lease, generate_claimed, claim_or_wait,
  resolve,
}
use apate.Intelligence.Generation.Budget.{IsWithin, produce-IsBudgeted}
use apate.Intelligence.Generation.Commits.{Committed, write_supersedes, commit_fenced}

-- A digest by the first byte.
tag : Bytes → String
tag [] = "empty"
tag (x ∷ xs) = "some"

tag_named : (b : Bytes) → is_empty (tag b) ≡ false
unfolding tag is_empty
tag_named [] = refl
tag_named (x ∷ xs) = refl

abbrev promised : Store String
promised = record {
  space = record {
    initialized = true;
    next_inode = 2;
    inodes =
        (
          2,
          record no_fields {
            mode = some 33188;
            size = some 0;
            manifest_class = some "ai_backed";
            revision = some 0;
          },
        )
        ∷ [];
    dirs = [];
    blobs = [];
    generating = [];
    bytes_allocated = 0;
  };
  blob_meta = [];
}

abbrev resolved : List (Store String) → Store String → Contents × Store String
unfolding resolve claim_or_wait generate_claimed take_lease release holds commit execute_commit
    cached is_generated_class produce try_model retry_quota quota read_blob hset inode is_empty tag
    Dict.get Dict.put Dict.remove
resolved later s = resolve tag 2 "token" (λ c. 1 ∷ 2 ∷ []) (λ c. c) (λ x. x) none later s

generated : (resolved [] promised).0 ≡ ok (some (1 ∷ 2 ∷ []))
unfolding resolved
generated = refl

released : (resolved [] promised).1.space.generating ≡ []
unfolding resolved
released = refl

waits : (resolved [] (take_lease tag 2 "other" promised)).0 ≡ ok none
unfolding resolved
waits = refl

write_supersedes_example :
    let written = record promised { space = execute_write tag 2 (9 ∷ []) 5 promised.space } in
    commit tag 2 "token" 0 (1 ∷ []) "model" none written ≡ (ok (some (9 ∷ [])), written)
write_supersedes_example =
    write_supersedes tag tag_named promised 2 (9 ∷ []) 5 "token" 0 (1 ∷ []) "model" none

commit_fenced_example :
    let s = take_lease tag 2 "token" promised in
    let (result, s') = commit tag 2 "token" 0 (1 ∷ []) "model" none s in
    (s' ≡ s)
    ⊎ ((result ≡ ok (some (1 ∷ [])))
        × (Dict.get s.space.generating 2 ≡ some "token")
        × (get_or 0 (hash_of s.space 2).revision ≡ 0)
        × (is_empty (get_or "" (hash_of s.space 2).content_hash) ≡ true)
        × Committed tag 2 (1 ∷ []) "model" s s')
commit_fenced_example =
    commit_fenced tag tag_named (take_lease tag 2 "token" promised) 2 "token" 0 (1 ∷ []) "model"

abbrev refused_twice : List ModelCall
refused_twice =
    record { time_left = true; raw = some (1 ∷ []); accepted = false }
    ∷ record { time_left = true; raw = none; accepted = false }
    ∷ []

produce-IsBudgeted_example :
    let p =
      produce 20
        (record { rendered = []; skip_generation = false; degraded = 0 ∷ [] })
        refused_twice
        "ai_backed"
        (record { session_calls = 18; global_calls = 30 }) in
    (p.calls ≤ 2)
    × (18 + p.calls ≤ p.quota.session_calls)
    × IsWithin 20 p.quota
    × ((p.validated ≡ false) ↔ (p.source ≡ fallback))
produce-IsBudgeted_example =
    produce-IsBudgeted 20 (record { rendered = []; skip_generation = false; degraded = 0 ∷ [] })
      refused_twice "ai_backed" (record { session_calls = 18; global_calls = 30 })
      (omega arith, omega arith)
