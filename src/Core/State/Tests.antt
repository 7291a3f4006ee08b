-- ===== src/Core/State/Tests.antt =====
-- Instances of the theorems about paths and exceptions at a fresh tree.
use apate.Dict
use apate.Core.State.Paths.{walk-create_file}
use apate.Core.State.{remove_directory, unlink_file, make_directory, walk, create_file}
use apate.Core.Scripts.{
  fresh_fields, bad_name, refusal, add_file, atomic_create, add_directory, atomic_mkdir,
  release_inode, drop_file, atomic_unlink, drop_directory, atomic_rmdir,
}
use apate.Prelude.{
  true, some, [], ◌∷◌, nat_eq, string_eq, ℕ, String, ◌≡◌, refl, Option, none, List, ◌++◌, map,
  has_code, incr, decr, is_positive,
}
use apate.Core.Namespace.{
  no_fields, Namespace, inode, hset, del_inode, zscore, zadd, zrem, zcard, del_dir, incr_inode,
  mode_of,
}

abbrev fresh_tree : Namespace
fresh_tree = record {
  initialized = true;
  next_inode = 2;
  inodes =
      (1, fresh_fields 16877 4096 2 7 no_fields) ∷ (2, fresh_fields 16877 4096 2 7 no_fields) ∷ [];
  dirs = (1, (".", 1) ∷ ("..", 1) ∷ ("etc", 2) ∷ []) ∷ (2, (".", 2) ∷ ("..", 1) ∷ []) ∷ [];
  blobs = [];
  generating = [];
  bytes_allocated = 0;
}

abbrev made : Namespace
made = (create_file 2 "passwd" 33188 9 fresh_tree).1

abbrev leads : Namespace → List (List String) → List (Option ℕ)
unfolding create_file make_directory unlink_file remove_directory walk atomic_create atomic_mkdir
    atomic_unlink atomic_rmdir add_file add_directory drop_file drop_directory release_inode refusal
    bad_name has_code inode hset del_inode zscore zadd zrem zcard del_dir incr_inode mode_of
    Dict.get Dict.put Dict.remove incr decr is_positive
leads s paths = map (walk s 1) paths

resolved : leads made (("etc" ∷ "passwd" ∷ []) ∷ ("etc" ∷ "shadow" ∷ []) ∷ []) ≡ some 3 ∷ none ∷ []
unfolding leads
resolved = refl

walk-create_file_example :
    (walk made 1 (("etc" ∷ []) ++ "passwd" ∷ []) ≡ some 3)
    × ((qs : List String) (j : ℕ) → walk fresh_tree 1 qs ≡ some j → walk made 1 qs ≡ some j)
unfolding leads
walk-create_file_example = walk-create_file fresh_tree ("etc" ∷ []) 2 "passwd" 33188 9 3 refl refl
