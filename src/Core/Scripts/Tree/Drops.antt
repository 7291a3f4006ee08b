-- ===== src/Core/Scripts/Tree/Drops.antt =====
-- What `atomic_unlink` and `atomic_rmdir` do to the tree when they succeed, and that it is enough.
use apate.Prelude.{
  sym, subst, Bool-cases, false, ℕ, String, ◌≡◌, ◌≢◌, ◌⊎◌, inl, inr, true, false, ◌&&◌, ◌||◌, some,
  arith, ◌==◌, string_eq, is_some, nat_eq,
}
use apate.Core.Namespace.{
  hset, zrem, del_dir, del_inode, inode, zscore, mode_of, inode, zscore, mode_of, Namespace,
}
use apate.Core.Namespace.Laws.{inode_laws, zscore_laws, next_inode_laws}
use apate.Core.Scripts.{drop_file, drop_directory, release_inode, drop_link, touch}
use apate.Core.Scripts.Tree.{IsWellFormed, is_dot}

pub record Drops (s s' : Namespace) (parent : ℕ) (name : String) (i : ℕ) : Type 0 where
  pub next : s'.next_inode ≡ s.next_inode
  pub present : (j : ℕ) → is_some (inode s' j) ≡ true → (parent == j || is_some (inode s j)) ≡ true
  pub spared : (j : ℕ) → i ≢ j → is_some (inode s j) ≡ true → is_some (inode s' j) ≡ true
  pub entries :
      (e : ℕ) (m : String) (k : ℕ)
      → zscore s' e m ≡ some k
      → (zscore s e m ≡ some k) × ((parent == e && name == m) ≡ false)
  pub holder : (m : String) (k : ℕ) → zscore s' i m ≡ some k → is_some (inode s' i) ≡ true
  pub root : i ≢ 1 → mode_of s' 1 ≡ mode_of s 1

module _ {s s' : Namespace} {parent i : ℕ} {name : String} where
  pub Drops-IsWellFormed :
      IsWellFormed s
      → is_some (inode s parent) ≡ true
      → is_dot name ≡ false
      → zscore s parent name ≡ some i
      → Drops s s' parent name i
      → IsWellFormed s'
  Drops-IsWellFormed w p name' found a = record {
    root = rw (a.root (omega (arith, w.not_root parent name i name' found))) w.root;
    inodes_below =
        λ j h. ground (arith, a.next, a.present j h, w.inodes_below j, w.inodes_below parent);
    targets_below = λ d n j h. ground (arith, a.next, a.entries d n j h, w.targets_below d n j);
    dirs_below = λ d n j h. ground (arith, a.next, a.entries d n j h, w.dirs_below d n j);
    holder = λ d n j h. elim (Bool-cases (i == d)) [
      | inl is ↦
          let e : i ≡ d = (nat_eq.beq_iff i d).0 is in
          subst (λ x. is_some (inode s' x) ≡ true) e
            (a.holder n j (subst (λ x. zscore s' x n ≡ some j) (sym e) h))
      | inr other ↦
          a.spared d (λ e. absurd (ground (arith, nat_eq.beq_iff i d, other, e)))
            (w.holder d n j (a.entries d n j h).0)
    ];
    self = λ d j h. w.self d j (a.entries d "." j h).0;
    live = λ d n j n' h.
        a.spared j
          (λ e. ground (
            arith,
            a.entries d n j h,
            w.one_place parent d name n i name' n' found,
            string_eq.beq_iff name n,
          ))
          (w.live d n j n' (a.entries d n j h).0);
    not_root = λ d n j n' h. w.not_root d n j n' (a.entries d n j h).0;
    one_place = λ d e n m j n' m' h k.
        w.one_place d e n m j n' m' (a.entries d n j h).0 (a.entries e m j k).0;
  }

module _ (s : Namespace) (i : ℕ) where
  -- Either nothing is released, or the inode's hash and its directory are.
  release_inode-cases : (release_inode i s ≡ s) ⊎ (release_inode i s ≡ del_dir (del_inode s i) i)
  unfolding release_inode
  release_inode-cases = ground arith

module _ (s : Namespace) (parent i : ℕ) (name : String) (now : ℕ)
    (target : is_some (inode s i) ≡ true) where
  unlinked-Drops :
      Drops s (hset (hset (zrem s parent name) i drop_link) parent (touch now)) parent name i
  unfolding mode_of
  unlinked-Drops = record {
    next = simp next_inode_laws;
    present = λ j. simp inode_laws (ground arith);
    spared = λ j ne. simp inode_laws (ground arith);
    entries = λ e m k. simp zscore_laws (ground arith);
    holder = λ m k. simp (inode_laws, zscore_laws) (ground arith);
    root = λ ne. simp inode_laws (ground arith);
  }

  released-Drops :
      Drops s
        (hset (del_dir (del_inode (hset (zrem s parent name) i drop_link) i) i) parent (touch now))
        parent
        name
        i
  unfolding mode_of
  released-Drops = record {
    next = simp next_inode_laws;
    present = λ j. simp inode_laws (ground arith);
    spared = λ j ne. simp inode_laws (ground arith);
    entries = λ e m k. simp zscore_laws (ground arith);
    holder = λ m k. simp (inode_laws, zscore_laws) (ground arith);
    root = λ ne. simp inode_laws (ground arith);
  }

  pub drop_file-Drops : Drops s (drop_file parent name i now s) parent name i
  unfolding drop_file
  drop_file-Drops = elim (release_inode-cases (hset (zrem s parent name) i drop_link) i) [
    | inl kept ↦ rw kept unlinked-Drops
    | inr gone ↦ rw gone released-Drops
  ]

  pub drop_directory-Drops : Drops s (drop_directory parent name i now s) parent name i
  unfolding drop_directory mode_of
  drop_directory-Drops = record {
    next = simp next_inode_laws;
    present = λ j. simp inode_laws (ground arith);
    spared = λ j ne. simp inode_laws (ground arith);
    entries = λ e m k. simp zscore_laws (ground arith);
    holder = λ m k. simp (inode_laws, zscore_laws) (ground arith);
    root = λ ne. simp inode_laws (ground arith);
  }
