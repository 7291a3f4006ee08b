-- ===== src/Core/Scripts/Tree.antt =====
-- The directory tree stays well formed: entries stand in inodes that exist and, `..` aside, lead to
-- inodes that exist, every file or directory stands in one place, and the root stays a directory.
pub mod Adds
pub mod Drops
pub mod Runs
use apate.Prelude.{
  ℕ, ◌≤◌, ◌<◌, String, ◌≡◌, Bool, true, false, ◌||◌, some, arith, ◌==◌, is_some, nat_eq, string_eq,
}
use apate.Core.Namespace.{inode, zscore, mode_of, is_dir, Namespace}

abbrev pub is_dot : String → Bool
is_dot name = name == "." || name == ".."

pub record IsWellFormed (s : Namespace) : Type 0 where
  pub root : is_dir (mode_of s 1) ≡ true
  pub inodes_below : (i : ℕ) → is_some (inode s i) ≡ true → i ≤ s.next_inode
  pub targets_below : (d : ℕ) (n : String) (i : ℕ) → zscore s d n ≡ some i → i ≤ s.next_inode
  pub dirs_below : (d : ℕ) (n : String) (i : ℕ) → zscore s d n ≡ some i → d ≤ s.next_inode
  pub holder : (d : ℕ) (n : String) (i : ℕ) → zscore s d n ≡ some i → is_some (inode s d) ≡ true
  pub self : (d i : ℕ) → zscore s d "." ≡ some i → i ≡ d
  pub live :
      (d : ℕ) (n : String) (i : ℕ)
      → is_dot n ≡ false
      → zscore s d n ≡ some i
      → is_some (inode s i) ≡ true
  pub not_root : (d : ℕ) (n : String) (i : ℕ) → is_dot n ≡ false → zscore s d n ≡ some i → 1 < i
  pub one_place :
      (d e : ℕ) (n m : String) (i : ℕ)
      → is_dot n ≡ false
      → is_dot m ≡ false
      → zscore s d n ≡ some i
      → zscore s e m ≡ some i
      → (d ≡ e) × (n ≡ m)

-- A directory has an inode hash.
pub is_dir-present :
    (s : Namespace) (i : ℕ) → is_dir (mode_of s i) ≡ true → is_some (inode s i) ≡ true
unfolding mode_of
is_dir-present s i h = ground arith

pub root_number : {s : Namespace} → IsWellFormed s → 1 ≤ s.next_inode
root_number {s} w = w.inodes_below 1 (is_dir-present s 1 w.root)
