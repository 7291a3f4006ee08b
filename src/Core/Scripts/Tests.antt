-- ===== src/Core/Scripts/Tests.antt =====
-- Runs of the scripts at concrete trees, and the instances of the theorems about them.
use apate.Core.Scripts.Tree.Runs.{run-IsWellFormed}
use apate.Core.Scripts.Fresh.{atomic_create-creates, creation_never_reuses}
use apate.Core.Scripts.Replies.{step-refused}
use apate.Core.Scripts.Tree.{is_dot, IsWellFormed}
use apate.Dict
use apate.Prelude.{
  ℕ, ◌≡◌, refl, false, List, [], ◌∷◌, nat_eq, string_eq, ◌≤◌, ◌<◌, String, true, some, arith,
  ==-symm, is_some, has_code, incr, decr, is_positive,
}
use apate.Core.Namespace.{
  no_fields, Namespace, inode, hset, del_inode, zscore, zadd, zrem, zcard, del_dir, incr_inode,
  mode_of,
}
use apate.Core.Scripts.{
  einval, number, minus_two, fresh_fields, Call, creates, mkdirs, unlinks, rmdirs, step, run, Reply,
  error_reply, bad_name, max_inodes, refusal, add_file, atomic_create, add_directory, atomic_mkdir,
  release_inode, drop_file, atomic_unlink, drop_directory, atomic_rmdir,
}

-- The root alone, as the first steps of `_initialize_filesystem` leave it.
abbrev root_only : Namespace
root_only = record {
  initialized = false;
  next_inode = 1;
  inodes = (1, fresh_fields 16877 4096 2 7 no_fields) ∷ [];
  dirs = (1, (".", 1) ∷ ("..", 1) ∷ []) ∷ [];
  blobs = [];
  generating = [];
  bytes_allocated = 0;
}

abbrev history : List Call
history =
    mkdirs 1 "etc" 16877 8
    ∷ creates 2 "passwd" 33188 9
    ∷ creates 2 "." 33188 9
    ∷ rmdirs 1 "etc" 10
    ∷ unlinks 2 "passwd" 11
    ∷ rmdirs 1 "etc" 12
    ∷ []

-- The replies of a run, in order. Its line opens what a test has to compute with.
answers : List Call → Namespace → List Reply
unfolding step run atomic_create atomic_mkdir atomic_unlink atomic_rmdir add_file add_directory
    drop_file drop_directory release_inode refusal bad_name has_code inode hset del_inode zscore
    zadd zrem zcard del_dir incr_inode mode_of Dict.get Dict.put Dict.remove incr decr is_positive
answers [] s = []
answers (c ∷ cs) s = (step c s).0 ∷ answers cs (step c s).1

history_replies :
    answers history root_only
    ≡ number 2 ∷ number 3 ∷ error_reply einval ∷ minus_two ∷ number 3 ∷ number 2 ∷ []
unfolding answers
history_replies = refl

-- At the root alone each name but `.` and `..` is free.
root_only-entry :
    (d : ℕ) (n : String) (i : ℕ)
    → zscore root_only d n ≡ some i
    → (d ≡ 1) × (i ≡ 1) × (is_dot n ≡ true)
unfolding zscore Dict.get
root_only-entry d n i h = ground (arith, ==-symm "." n, ==-symm ".." n)

root_only-IsWellFormed : IsWellFormed root_only
unfolding answers
root_only-IsWellFormed = record {
  root = refl;
  inodes_below = λ i h. ground arith;
  targets_below = λ d n i h. omega (arith, root_only-entry d n i h);
  dirs_below = λ d n i h. omega (arith, root_only-entry d n i h);
  holder = λ d n i h. ground (arith, root_only-entry d n i h);
  self = λ d i h. omega (arith, root_only-entry d "." i h);
  live = λ d n i n' h. cc ((root_only-entry d n i h).2, n');
  not_root = λ d n i n' h. cc ((root_only-entry d n i h).2, n');
  one_place = λ d e n m i n' m' h k. cc ((root_only-entry d n i h).2, n');
}

run-IsWellFormed_example : IsWellFormed (run history root_only)
run-IsWellFormed_example = run-IsWellFormed history root_only root_only-IsWellFormed

step-refused_example : (step (rmdirs 1 "etc" 5) root_only).1 ≡ root_only
unfolding answers
step-refused_example = step-refused (rmdirs 1 "etc" 5) root_only refl

creation_never_reuses_example : (is_some (inode root_only 2) ≡ false) × (2 ≤ max_inodes) × (2 < 3)
unfolding answers
creation_never_reuses_example =
    creation_never_reuses (creates 1 "a" 33188 5) (creates 1 "a" 33188 6) root_only
      (unlinks 1 "a" 5 ∷ []) 2 3 root_only-IsWellFormed refl refl refl refl

atomic_create-creates_example : zscore (atomic_create 1 "a" 33188 5 root_only).1 1 "a" ≡ some 2
unfolding answers
atomic_create-creates_example =
    (atomic_create-creates root_only 1 "a" 33188 5 2 root_only-IsWellFormed refl).1
