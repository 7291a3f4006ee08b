-- ===== src/Core/Scripts/Tree/Adds.antt =====
-- What `atomic_create` and `atomic_mkdir` do to the tree when they succeed, and that it is enough.
use apate.Prelude.{
  ℕ, suc, ◌≤◌, String, ◌≡◌, ◌⊎◌, inl, inr, true, false, ◌&&◌, ◌||◌, some, arith, if◌then◌else◌,
  ◌==◌, string_eq, ==-symm, Bool-cases, is_some, nat_eq,
}
use text.Mathlib.TextEquality.{eq_iff}
use apate.Core.Namespace.{inode, zscore, mode_of, Namespace}
use apate.Core.Namespace.Laws.{inode_laws, zscore_laws, next_inode_laws}
use apate.Core.Scripts.{add_file, add_directory}
use apate.Core.Scripts.Tree.{IsWellFormed, is_dot, root_number}

pub record Adds (s s' : Namespace) (parent : ℕ) (name : String) : Type 0 where
  pub next : s'.next_inode ≡ suc s.next_inode
  pub present :
      (j : ℕ)
      → is_some (inode s' j) ≡ (parent == j || (suc s.next_inode == j || is_some (inode s j)))
  pub entries :
      (e : ℕ) (m : String)
      → is_dot m ≡ false
      → zscore s' e m ≡ (if parent == e && name == m then some (suc s.next_inode) else zscore s e m)
  pub dots :
      (e : ℕ) (m : String) (i : ℕ)
      → is_dot m ≡ true
      → zscore s' e m ≡ some i
      → (zscore s e m ≡ some i) ⊎ ((e ≡ suc s.next_inode) × (i ≤ suc s.next_inode))
  pub self : (e i : ℕ) → zscore s' e "." ≡ some i → (zscore s e "." ≡ some i) ⊎ (i ≡ e)
  pub root : mode_of s' 1 ≡ mode_of s 1

module _ {s s' : Namespace} {parent : ℕ} {name : String} where
  pub Adds-IsWellFormed :
      IsWellFormed s → is_some (inode s parent) ≡ true → Adds s s' parent name → IsWellFormed s'
  Adds-IsWellFormed w p a = record {
    root = rw a.root w.root;
    inodes_below =
        λ i h. ground (arith, a.next, a.present i, w.inodes_below i, w.inodes_below parent);
    targets_below = λ d n i h. elim (Bool-cases (is_dot n)) [
      | inl dot ↦ ground (arith, a.next, a.dots d n i dot h, w.targets_below d n i)
      | inr name' ↦ ground (arith, a.next, a.entries d n name', w.targets_below d n i)
    ];
    dirs_below = λ d n i h. elim (Bool-cases (is_dot n)) [
      | inl dot ↦ ground (arith, a.next, a.dots d n i dot h, w.dirs_below d n i)
      | inr name' ↦
          ground (arith, a.next, a.entries d n name', w.dirs_below d n i, w.inodes_below parent)
    ];
    holder = λ d n i h. elim (Bool-cases (is_dot n)) [
      | inl dot ↦ elim (a.dots d n i dot h) [
        | inl old ↦ ground (arith, a.present d, w.holder d n i old)
        | inr new ↦ ground (arith, a.present d, new.0)
      ]
      | inr name' ↦
          ground (arith, a.present d, a.entries d n name', w.holder d n i, nat_eq.beq_iff parent d)
    ];
    self = λ d i h. elim (a.self d i h) [ inl old ↦ w.self d i old | inr same ↦ same ];
    live = λ d n i name' h. ground (arith, a.present i, a.entries d n name', w.live d n i name');
    not_root =
        λ d n i name' h. ground (arith, a.entries d n name', w.not_root d n i name', root_number w);
    one_place = λ d e n m i n' m' h k. ground (
      arith,
      a.entries d n n',
      a.entries e m m',
      string_eq.beq_iff name n,
      string_eq.beq_iff name m,
      w.one_place d e n m i n' m',
      w.targets_below d n i,
      w.targets_below e m i,
    );
  }

module _ (s : Namespace) (parent : ℕ) (name : String) (mode t : ℕ) (named : is_dot name ≡ false)
    (h : 1 ≤ s.next_inode) where
  pub add_file-Adds : Adds s (add_file parent name mode t s) parent name
  unfolding add_file mode_of
  add_file-Adds = record {
    next = simp next_inode_laws;
    present = λ j. simp inode_laws (ground arith);
    entries = λ e m m'. simp zscore_laws;
    dots = λ e m i d. simp zscore_laws (ground (arith, eq_iff name m));
    self = λ e i. simp zscore_laws (ground (arith, eq_iff name "."));
    root = simp inode_laws (ground arith);
  }

  pub add_directory-Adds :
      parent ≤ s.next_inode → Adds s (add_directory parent name mode t s) parent name
  unfolding add_directory mode_of
  add_directory-Adds p = record {
    next = simp next_inode_laws;
    present = λ j. simp inode_laws (ground arith);
    entries = λ e m m'. simp zscore_laws (ground (arith, ==-symm ".." m, ==-symm "." m));
    dots = λ e m i d. simp zscore_laws (ground (arith, eq_iff name m));
    self = λ e i. simp zscore_laws (ground (arith, eq_iff name "."));
    root = simp inode_laws (ground arith);
  }
