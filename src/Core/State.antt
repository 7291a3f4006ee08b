-- ===== src/Core/State.antt =====
-- src/chronos/core/state.py: the scripts as methods that raise, and the resolution of paths.
pub mod Paths
pub mod Setup
pub mod Tests
use apate.Prelude.{
  ℕ, zero, suc, ◌/◌, String, not, Option, none, some, List, [], ◌∷◌, if◌then◌else◌, ◌==◌, nat_eq,
  string_eq, select, is_empty, split,
}
use apate.Core.Errno.{Errno, Result, ok, err, eexist, enoent, enotempty}
use apate.Core.Namespace.{Namespace, zscore}
use apate.Core.Scripts.{
  Reply, number, minus_one, minus_two, error_reply, atomic_create, atomic_mkdir, atomic_unlink,
  atomic_rmdir,
}

-- `Database.run_script` raises the error replies, and -1 is FileExistsError. -2 is no answer of
-- these scripts (`creation_never_minus_two`).
abbrev pub raise_exists : Reply → Result ℕ
raise_exists (number i) = ok i
raise_exists (error_reply e) = err e
raise_exists _ = err eexist

-- For the removals -1 is FileNotFoundError, and -2 is OSError("Directory not empty").
abbrev pub raise_missing : Reply → Result ℕ
raise_missing (number i) = ok i
raise_missing (error_reply e) = err e
raise_missing minus_one = err enoent
raise_missing minus_two = err enotempty

unfoldable pub create_file : ℕ → String → ℕ → ℕ → Namespace → Result ℕ × Namespace
create_file parent filename mode timestamp s =
    let (reply, s') = atomic_create parent filename mode timestamp s in (raise_exists reply, s')

unfoldable pub make_directory : ℕ → String → ℕ → ℕ → Namespace → Result ℕ × Namespace
make_directory parent filename mode timestamp s =
    let (reply, s') = atomic_mkdir parent filename mode timestamp s in (raise_exists reply, s')

unfoldable pub unlink_file : ℕ → String → ℕ → Namespace → Result ℕ × Namespace
unlink_file parent filename now s =
    let (reply, s') = atomic_unlink parent filename now s in (raise_missing reply, s')

unfoldable pub remove_directory : ℕ → String → ℕ → Namespace → Result ℕ × Namespace
remove_directory parent filename now s =
    let (reply, s') = atomic_rmdir parent filename now s in (raise_missing reply, s')

-- `[p for p in path.split("/") if p]`
unfoldable pub parts : String → List String
parts path = select (λ p. not (is_empty p)) (split b'/' path)

-- A score of 0 counts as a missing entry: `if not inode`.
unfoldable pub walk : Namespace → ℕ → List String → Option ℕ
walk s current [] = some current
walk s current (part ∷ rest) = elim (zscore s current part) [
  | none ↦ none
  | some zero ↦ none
  | some (suc i) ↦ walk s (suc i) rest
]

unfoldable pub resolve_path_sync : Namespace → String → Option ℕ
resolve_path_sync s path = if path == "/" then some 1 else walk s 1 (parts path)
