-- ===== src/Core/Scripts/Tree/Runs.antt =====
-- Every script, and every run of scripts, keeps the tree well formed.
use apate.Prelude.{
  ℕ, String, ◌≡◌, inl, inr, true, false, none, some, List, [], ◌∷◌, arith, nat_eq, string_eq,
}
use apate.Core.Namespace.{zscore, mode_of, is_dir, Namespace}
use apate.Core.Scripts.{
  step, run, Call, creates, mkdirs, unlinks, rmdirs, bad_name, refusal, add_file, add_directory,
  drop_file, drop_directory,
}
use apate.Core.Scripts.Replies.{
  atomic_create-cases, atomic_mkdir-cases, atomic_unlink-cases, atomic_rmdir-cases,
}
use apate.Core.Scripts.Tree.{IsWellFormed, is_dot, is_dir-present, root_number}
use apate.Core.Scripts.Tree.Adds.{Adds-IsWellFormed, add_file-Adds, add_directory-Adds}
use apate.Core.Scripts.Tree.Drops.{Drops-IsWellFormed, drop_file-Drops, drop_directory-Drops}

-- What passing the opening checks means.
pub record IsAdmitted (s : Namespace) (parent : ℕ) (name : String) : Type 0 where
  pub named : is_dot name ≡ false
  pub parent_is_dir : is_dir (mode_of s parent) ≡ true

pub admitted :
    (s : Namespace) (parent : ℕ) (name : String)
    → refusal s parent name ≡ none
    → IsAdmitted s parent name
unfolding refusal bad_name
admitted s parent name h = ground arith

module _ {s : Namespace} (w : IsWellFormed s) {parent : ℕ} {name : String}
    (a : IsAdmitted s parent name) where
  add_file-IsWellFormed : (mode t : ℕ) → IsWellFormed (add_file parent name mode t s)
  add_file-IsWellFormed mode t =
      Adds-IsWellFormed w (is_dir-present s parent a.parent_is_dir)
        (add_file-Adds s parent name mode t a.named (root_number w))

  add_directory-IsWellFormed : (mode t : ℕ) → IsWellFormed (add_directory parent name mode t s)
  add_directory-IsWellFormed mode t =
      let p = is_dir-present s parent a.parent_is_dir in
      Adds-IsWellFormed w p
        (add_directory-Adds s parent name mode t a.named (root_number w) (w.inodes_below parent p))

  module _ {i : ℕ} (found : zscore s parent name ≡ some i) (now : ℕ) where
    drop_file-IsWellFormed : IsWellFormed (drop_file parent name i now s)
    drop_file-IsWellFormed =
        Drops-IsWellFormed w (is_dir-present s parent a.parent_is_dir) a.named found
          (drop_file-Drops s parent i name now (w.live parent name i a.named found))

    drop_directory-IsWellFormed : IsWellFormed (drop_directory parent name i now s)
    drop_directory-IsWellFormed =
        Drops-IsWellFormed w (is_dir-present s parent a.parent_is_dir) a.named found
          (drop_directory-Drops s parent i name now (w.live parent name i a.named found))

-- One script keeps the tree well formed, whatever its arguments and whatever it answers.
pub step-IsWellFormed : (c : Call) (s : Namespace) → IsWellFormed s → IsWellFormed (step c s).1
unfolding step
step-IsWellFormed (creates parent name mode t) s w =
    elim (atomic_create-cases s parent name mode t) [
      | inl r ↦ rw r.1 w
      | inr c ↦ rw c.reply (add_file-IsWellFormed w (admitted s parent name c.passed) mode t)
    ]
step-IsWellFormed (mkdirs parent name mode t) s w = elim (atomic_mkdir-cases s parent name mode t) [
  | inl r ↦ rw r.1 w
  | inr c ↦ rw c.reply (add_directory-IsWellFormed w (admitted s parent name c.passed) mode t)
]
step-IsWellFormed (unlinks parent name now) s w = elim (atomic_unlink-cases s parent name now) [
  | inl r ↦ rw r.1 w
  | inr (i, _, c) ↦
      rw c.reply (drop_file-IsWellFormed w (admitted s parent name c.passed) c.found now)
]
step-IsWellFormed (rmdirs parent name now) s w = elim (atomic_rmdir-cases s parent name now) [
  | inl r ↦ rw r.1 w
  | inr (i, _, _, c) ↦
      rw c.reply (drop_directory-IsWellFormed w (admitted s parent name c.passed) c.found now)
]

-- From a well-formed tree every run of scripts, whoever calls them and in whatever order, ends in
-- a well-formed tree: the root is a directory; every entry stands in an inode that exists; `.` leads
-- to its own directory and every entry but `.` and `..` to an inode that exists and is not the root;
-- no inode number passes the counter; and an inode has one place at most under such a name. Where a
-- `..` leads is only bounded by the counter.
pub run-IsWellFormed : (cs : List Call) (s : Namespace) → IsWellFormed s → IsWellFormed (run cs s)
unfolding run
run-IsWellFormed [] s w = w
run-IsWellFormed (c ∷ cs) s w = run-IsWellFormed cs (step c s).1 (step-IsWellFormed c s w)
