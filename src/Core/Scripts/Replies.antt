-- ===== src/Core/Scripts/Replies.antt =====
-- When each script succeeds, and that a script that fails has written nothing.
use apate.Prelude.{
  ℕ, suc, ◌≤◌, ◌<◌, String, ◌≡◌, ◌⊎◌, Bool, true, false, none, some, arith, nat_eq, string_eq,
}
use apate.Core.Namespace.{zscore, zcard, mode_of, is_dir, Namespace}
use apate.Core.Scripts.{
  creates, Call, step, max_inodes, refusal, add_file, atomic_create, add_directory, atomic_mkdir,
  drop_file, atomic_unlink, drop_directory, atomic_rmdir, Reply, number, mkdirs, unlinks, rmdirs,
}

abbrev pub is_number : Reply → Bool
is_number (number i) = true
is_number _ = false

-- The script answered without an inode number and left the namespace alone.
abbrev pub Refuses : Namespace → Reply × Namespace → Type 0
Refuses s r = (is_number r.0 ≡ false) × (r.1 ≡ s)

module _ (s : Namespace) (parent : ℕ) (name : String) where
  pub record Creates (i : ℕ) (s' : Namespace) (r : Reply × Namespace) : Type 0 where
    pub passed : refusal s parent name ≡ none
    pub absent : zscore s parent name ≡ none
    pub room : s.next_inode < max_inodes
    pub fresh : i ≡ suc s.next_inode
    pub reply : r ≡ (number i, s')

  pub atomic_create-cases :
      (mode t : ℕ)
      → let r = atomic_create parent name mode t s in
        Refuses s r ⊎ Creates (suc s.next_inode) (add_file parent name mode t s) r
  unfolding atomic_create
  atomic_create-cases mode t = ground arith

  pub atomic_mkdir-cases :
      (mode t : ℕ)
      → let r = atomic_mkdir parent name mode t s in
        Refuses s r ⊎ Creates (suc s.next_inode) (add_directory parent name mode t s) r
  unfolding atomic_mkdir
  atomic_mkdir-cases mode t = ground arith

  pub record Removes (i : ℕ) (s' : Namespace) (r : Reply × Namespace) : Type 0 where
    pub passed : refusal s parent name ≡ none
    pub found : zscore s parent name ≡ some i
    pub reply : r ≡ (number i, s')

  pub atomic_unlink-cases :
      (now : ℕ)
      → let r = atomic_unlink parent name now s in
        Refuses s r
        ⊎ ((i : ℕ) × (is_dir (mode_of s i) ≡ false) × Removes i (drop_file parent name i now s) r)
  unfolding atomic_unlink
  atomic_unlink-cases now = ground arith

  pub atomic_rmdir-cases :
      (now : ℕ)
      → let r = atomic_rmdir parent name now s in
        Refuses s r
        ⊎ ((i : ℕ) × (is_dir (mode_of s i) ≡ true)
            × (zcard s i ≤ 2)
            × Removes i (drop_directory parent name i now s) r)
  unfolding atomic_rmdir
  atomic_rmdir-cases now = ground arith

-- A script that answers -1, -2 or an error, and so raises in Python, has changed nothing.
pub step-refused : (c : Call) (s : Namespace) → is_number (step c s).0 ≡ false → (step c s).1 ≡ s
unfolding step
step-refused (creates parent name mode t) s h =
    ground (arith, atomic_create-cases s parent name mode t)
step-refused (mkdirs parent name mode t) s h =
    ground (arith, atomic_mkdir-cases s parent name mode t)
step-refused (unlinks parent name now) s h = ground (arith, atomic_unlink-cases s parent name now)
step-refused (rmdirs parent name now) s h = ground (arith, atomic_rmdir-cases s parent name now)
