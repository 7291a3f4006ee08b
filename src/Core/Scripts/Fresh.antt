-- ===== src/Core/Scripts/Fresh.antt =====
-- New inode numbers: a number is handed out once, and what is created is found under its name.
use apate.Prelude.{
  ℕ, suc, ◌≤◌, ◌<◌, String, ◌≡◌, ◌≢◌, inl, inr, Bool, true, false, ◌&&◌, none, some, List, [], ◌∷◌,
  arith, ◌==◌, nat_eq, string_eq, is_some, refl, if◌then◌else◌, ==_refl,
}
use apate.Core.Namespace.{no_fields, inode, del_inode, zscore, Namespace}
use apate.Core.Namespace.Laws.{
  next_inode-del_inode, next_inode-del_dir, next_inode_laws, inode_laws, zscore_laws,
}
use apate.Core.Scripts.{
  max_inodes, fresh_fields, add_file, atomic_create, add_directory, release_inode, drop_file,
  drop_directory, step, run, Call, number, creates, mkdirs, unlinks, rmdirs,
}
use apate.Core.Scripts.Replies.{
  atomic_create-cases, atomic_mkdir-cases, atomic_unlink-cases, atomic_rmdir-cases,
}
use apate.Core.Scripts.Tree.Runs.{admitted}
use apate.Core.Scripts.Tree.{IsWellFormed, is_dir-present}

next_inode-release_inode : (i : ℕ) (s : Namespace) → (release_inode i s).next_inode ≡ s.next_inode
unfolding release_inode
next_inode-release_inode i s =
    ground (arith, next_inode-del_dir (del_inode s i) i, next_inode-del_inode s i)

module _ (s : Namespace) (parent i : ℕ) (name : String) (t : ℕ) where
  next_inode-drop_file : (drop_file parent name i t s).next_inode ≡ s.next_inode
  unfolding drop_file
  next_inode-drop_file = simp (next_inode_laws, next_inode-release_inode)

  next_inode-drop_directory : (drop_directory parent name i t s).next_inode ≡ s.next_inode
  unfolding drop_directory
  next_inode-drop_directory = simp next_inode_laws

  next_inode-add_file : (mode : ℕ) → (add_file parent name mode t s).next_inode ≡ suc s.next_inode
  unfolding add_file
  next_inode-add_file mode = simp next_inode_laws

  next_inode-add_directory :
      (mode : ℕ) → (add_directory parent name mode t s).next_inode ≡ suc s.next_inode
  unfolding add_directory
  next_inode-add_directory mode = simp next_inode_laws

pub next_inode-step : (c : Call) (s : Namespace) → s.next_inode ≤ (step c s).1.next_inode
unfolding step
next_inode-step (creates parent name mode t) s =
    ground
      (arith, atomic_create-cases s parent name mode t, next_inode-add_file s parent 0 name t mode)
next_inode-step (mkdirs parent name mode t) s = ground (
  arith,
  atomic_mkdir-cases s parent name mode t,
  next_inode-add_directory s parent 0 name t mode,
)
next_inode-step (unlinks parent name now) s = elim (atomic_unlink-cases s parent name now) [
  | inl r ↦ rw r.1 (omega arith)
  | inr (i, _, c) ↦ rw c.reply (omega (arith, next_inode-drop_file s parent i name now))
]
next_inode-step (rmdirs parent name now) s = elim (atomic_rmdir-cases s parent name now) [
  | inl r ↦ rw r.1 (omega arith)
  | inr (i, _, _, c) ↦ rw c.reply (omega (arith, next_inode-drop_directory s parent i name now))
]

next_inode-run : (cs : List Call) (s : Namespace) → s.next_inode ≤ (run cs s).next_inode
unfolding run
next_inode-run [] s = omega arith
next_inode-run (c ∷ cs) s = omega (arith, next_inode-step c s, next_inode-run cs (step c s).1)

abbrev pub is_creation : Call → Bool
is_creation (creates _ _ _ _) = true
is_creation (mkdirs _ _ _ _) = true
is_creation _ = false

creation-number :
    (c : Call) (s : Namespace) (i : ℕ)
    → is_creation c ≡ true
    → (step c s).0 ≡ number i
    → (i ≡ suc s.next_inode) × (s.next_inode < max_inodes) × ((step c s).1.next_inode ≡ i)
unfolding step
creation-number (creates parent name mode t) s i k h =
    ground
      (arith, atomic_create-cases s parent name mode t, next_inode-add_file s parent 0 name t mode)
creation-number (mkdirs parent name mode t) s i k h = ground (
  arith,
  atomic_mkdir-cases s parent name mode t,
  next_inode-add_directory s parent 0 name t mode,
)
creation-number (unlinks parent name now) s i k h = cc
creation-number (rmdirs parent name now) s i k h = cc

-- Inode numbers are never reused: if a creation answers `i`, then nothing in the well-formed tree
-- had that number, it is at most 10000, and whatever scripts run in between, a later creation
-- answers a greater number.
pub creation_never_reuses :
    (c d : Call) (s : Namespace) (between : List Call) (i j : ℕ)
    → IsWellFormed s
    → is_creation c ≡ true
    → is_creation d ≡ true
    → (step c s).0 ≡ number i
    → (step d (run between (step c s).1)).0 ≡ number j
    → (is_some (inode s i) ≡ false) × (i ≤ max_inodes) × (i < j)
creation_never_reuses c d s between i j w kc kd hc hd = ground (
  arith,
  creation-number c s i kc hc,
  creation-number d (run between (step c s).1) j kd hd,
  next_inode-run between (step c s).1,
  w.inodes_below i,
)

module _ (s : Namespace) (parent : ℕ) (name : String) (mode t : ℕ) where
  pub entry-add_file :
      (e : ℕ) (m : String)
      → zscore (add_file parent name mode t s) e m
        ≡ (if parent == e && name == m then some (suc s.next_inode) else zscore s e m)
  unfolding add_file
  entry-add_file e m = simp zscore_laws

  hash-add_file :
      IsWellFormed s
      → (parent == suc s.next_inode) ≡ false
      → inode (add_file parent name mode t s) (suc s.next_inode)
        ≡ some (fresh_fields mode 0 1 t no_fields)
  unfolding add_file
  hash-add_file w ne = simp inode_laws (ground (arith, w.inodes_below (suc s.next_inode)))

  others-add_file :
      (j : ℕ)
      → suc s.next_inode ≢ j
      → parent ≢ j
      → inode (add_file parent name mode t s) j ≡ inode s j
  unfolding add_file
  others-add_file j new old = simp inode_laws (ground arith)

-- A successful `atomic_create` in a well-formed tree: the name was free, it now leads to the new
-- inode, which has the given mode, no owner but root, no bytes and one link; every other name but
-- `.` and `..` leads where it led; and no inode but the new one and the parent has changed.
pub atomic_create-creates :
    (s : Namespace) (parent : ℕ) (name : String) (mode t i : ℕ)
    → IsWellFormed s
    → (atomic_create parent name mode t s).0 ≡ number i
    → let s' = (atomic_create parent name mode t s).1 in
      (zscore s parent name ≡ none)
      × (zscore s' parent name ≡ some i)
      × (inode s' i ≡ some (fresh_fields mode 0 1 t no_fields))
      × ((e : ℕ) (m : String) → (parent == e && name == m) ≡ false → zscore s' e m ≡ zscore s e m)
      × ((j : ℕ) → i ≢ j → parent ≢ j → inode s' j ≡ inode s j)
atomic_create-creates s parent name mode t i w h = elim (atomic_create-cases s parent name mode t) [
  | inl r ↦ absurd (ground arith)
  | inr c ↦
      let e : i ≡ suc s.next_inode =
        (creation-number (creates parent name mode t) s i refl (unfold step in h)).0 in
      let p =
        w.inodes_below parent
          (is_dir-present s parent (admitted s parent name c.passed).parent_is_dir) in
      rw (c.reply, e)
        (
          c.absent,
          rw entry-add_file (ground (arith, ==_refl name)),
          hash-add_file s parent name mode t w (ground arith),
          λ d m ne. rw entry-add_file (ground arith),
          λ j new old. others-add_file s parent name mode t j new old,
        )
]
